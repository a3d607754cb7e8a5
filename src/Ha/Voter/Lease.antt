-- ===== src/Ha/Voter/Lease.antt =====
-- The rules that make a vote of shared/ha-voter.mjs a lease.
use forthway_command_center.Base.{
  ℕ, ◌≤◌, ◌≡◌, ◌⊎◌, inl, inr, ◌↔◌, true, false, Option, none, some, arith, Bool-cases, Option-cases,
  Text, is_text_iff, text_eq_iff, Value, ◌∙◌, is_text, ◌&&◌,
}
use forthway_command_center.Ha.Version.{
  RawVersion, Version, clean_version, older, older_irrefl, older_trans,
}
use forthway_command_center.Ha.Wire.{Reply}
use forthway_command_center.Ha.Voter.State.{Voter, Handover, refusal}
use forthway_command_center.Ha.Voter.Learn.{
  Node, Setting, answering, reached, learn, learn_timings, learn_committed, learn_handover,
  is_leader,
}
use forthway_command_center.Ha.Voter.Reply.{Asked, grant_vote, answer, handle_reply, learned}

-- What a request has to meet to be granted.
pub record IsEntitled (v : Voter) (now : ℕ) (i : Text) (term : ℕ) (version : RawVersion)
    : Type 0 where
  pub current : v.term ≤ term
  pub complete : older (clean_version version) v.known_committed ≡ false
  pub free : (v.voted_for ≡ some i) ⊎ (v.lease_until ≤ now)
  pub unclaimed :
      (v.handover ≡ none)
      ⊎ ((h : Handover) × (v.handover ≡ some h) × ((h.until ≤ now) ⊎ (h.target ≡ i)))

module _ (v : Voter) (now : ℕ) (i : Text) (term : ℕ) (version : RawVersion) where
  pub refusal-IsEntitled : refusal v now i term version ≡ none → IsEntitled v now i term version
  unfolding refusal
  refusal-IsEntitled h = record {
    current = ground arith;
    complete = ground arith;
    free = ground (arith, is_text_iff v.voted_for i);
    unclaimed = elim (Option-cases v.handover) [
      | inl p ↦ inl p
      | inr (k, p) ↦ inr (k, p, ground (arith, text_eq_iff k.target i))
    ];
  }

  pub IsEntitled-refusal : IsEntitled v now i term version → refusal v now i term version ≡ none
  unfolding refusal
  IsEntitled-refusal h = elim h.unclaimed [
    | inl q ↦ ground (arith, is_text_iff v.voted_for i, h.current, h.complete, h.free)
    | inr (k, q, u) ↦
        ground
          (arith, is_text_iff v.voted_for i, text_eq_iff k.target i, h.current, h.complete, h.free)
  ]

  -- A request is not refused exactly when its term is no older than the voter's, its data is not
  -- behind what is known to be committed, the vote is its own or the lease is over, and no handover
  -- to another node is pending.
  pub refusal_iff : (refusal v now i term version ≡ none) ↔ IsEntitled v now i term version
  refusal_iff = (refusal-IsEntitled, IsEntitled-refusal)

-- What no reply may undo: a lease only grows, so do the term and what is known to be committed, and
-- the vote is another's only once the lease is over.
pub record Follows (now : ℕ) (v w : Voter) : Type 0 where
  pub lease : v.lease_until ≤ w.lease_until
  pub term : v.term ≤ w.term
  pub complete : older w.known_committed v.known_committed ≡ false
  pub vote : (w.voted_for ≡ v.voted_for) ⊎ (v.lease_until ≤ now)

-- What learning from a leader leaves alone.
pub record SameVote (v w : Voter) : Type 0 where
  pub lease : w.lease_until ≡ v.lease_until
  pub length : w.lease_len ≡ v.lease_len
  pub term : w.term ≡ v.term
  pub vote : w.voted_for ≡ v.voted_for
  pub complete : older w.known_committed v.known_committed ≡ false

older-asym : (a b : Version) → older a b ≡ true → older b a ≡ false
unfolding older
older-asym a b h = ground arith

pub learn_committed-SameVote :
    (e : Setting) (v : Voter) (c : Option RawVersion) → SameVote v (learn_committed e v c).0
unfolding learn_committed
learn_committed-SameVote e v none = ground (arith, older_irrefl v.known_committed)
learn_committed-SameVote e v (some c) =
    ground (arith, older_irrefl v.known_committed, older-asym v.known_committed (clean_version c))

pub learn_timings-SameVote : (v : Voter) (t : Option Value) → SameVote v (learn_timings v t)
unfolding learn_timings
learn_timings-SameVote v none = ground (arith, older_irrefl v.known_committed)
learn_timings-SameVote v (some t) = ground (arith, older_irrefl v.known_committed)

pub learn_handover-SameVote :
    (e : Setting) (v : Voter) (t : Option Text) → SameVote v (learn_handover e v t)
unfolding learn_handover
learn_handover-SameVote e v none = ground (arith, older_irrefl v.known_committed)
learn_handover-SameVote e v (some t) = ground (arith, older_irrefl v.known_committed)

pub SameVote-trans : {u v w : Voter} → SameVote u v → SameVote v w → SameVote u w
SameVote-trans {u} {v} {w} a b = record {
  lease = b.lease ∙ a.lease;
  length = b.length ∙ a.length;
  term = b.term ∙ a.term;
  vote = b.vote ∙ a.vote;
  complete =
      older_trans w.known_committed v.known_committed u.known_committed b.complete a.complete;
}

pub learn-SameVote : (e : Setting) (v : Voter) (r : Reply) → SameVote v (learn e v r).0
unfolding learn
learn-SameVote e v r =
    let a = learn_timings-SameVote v r.timings in
    let b = learn_committed-SameVote e (learn_timings v r.timings) r.committed in
    let c =
      learn_handover-SameVote e (learn_committed e (learn_timings v r.timings) r.committed).0 _ in
    SameVote-trans a (SameVote-trans b c)

pub SameVote-refl : (v : Voter) → SameVote v v
SameVote-refl v = ground (arith, older_irrefl v.known_committed)

grant_vote-Follows :
    (e : Setting) (v : Voter) (n : Node) (q : Asked)
    → IsEntitled v e.now q.candidate q.term q.version
    → Follows e.now v (grant_vote e v n q).voter
unfolding grant_vote
grant_vote-Follows e v n q h = ground (arith, older_irrefl v.known_committed, h.current, h.free)

Follows-refl : (now : ℕ) (v : Voter) → Follows now v v
Follows-refl now v = ground (arith, older_irrefl v.known_committed)

answer-Follows :
    (e : Setting) (v : Voter) (n : Node) (q : Option Asked) → Follows e.now v (answer e v n q).voter
unfolding answer
answer-Follows e v n none = Follows-refl e.now v
answer-Follows e v n (some q) = elim (Option-cases (refusal v e.now q.candidate q.term q.version)) [
  | inl h ↦
      rw (h, answer)
        (grant_vote-Follows e v n q (refusal-IsEntitled v e.now q.candidate q.term q.version h))
  | inr (why, h) ↦ rw (h, answer) (Follows-refl e.now v)
]

SameVote-Follows : {now : ℕ} {u v w : Voter} → SameVote u v → Follows now v w → Follows now u w
SameVote-Follows {u = u} {v = v} {w = w} a b = record {
  lease = omega (arith, b.lease, a.lease);
  term = omega (arith, b.term, a.term);
  complete =
      older_trans w.known_committed v.known_committed u.known_committed b.complete a.complete;
  vote = ground (arith, b.vote, a.vote, a.lease);
}

pub learned-SameVote :
    (e : Setting) (v : Voter) (n : Node) (i : Text) (r : Reply) → SameVote v (learned e v n i r).0
unfolding learned
learned-SameVote e v n i r = elim (Bool-cases (is_leader n.role && is_text n.leader_id i)) [
  | inl lead ↦ rw lead (learn-SameVote e v r)
  | inr other ↦ rw other (SameVote-refl v)
]

-- Whatever a panel node replies, the voter's lease ends no earlier than before, its vote changes only
-- when the old lease is over, and neither the term nor what is known to be committed goes back.
pub handle_reply-Follows :
    (e : Setting) (v : Voter) (n : Node) (r : Reply) → Follows e.now v (handle_reply e v n r).voter
unfolding handle_reply
handle_reply-Follows e v n r = elim (Option-cases (answering n r)) [
  | inl h ↦ rw (h, handle_reply) (Follows-refl e.now v)
  | inr (i, h) ↦
      rw (h, handle_reply)
        (SameVote-Follows (learned-SameVote e v (reached e n r) i r) (answer-Follows e _ _ _))
]
