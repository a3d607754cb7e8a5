-- ===== src/Ha/Voter/Grants.antt =====
-- What a voter has done by the time a grant leaves it (handleReply of shared/ha-voter.mjs).
use forthway_command_center.Base.{
  ℕ, ◌+◌, ◌-◌, max, ◌≤◌, ◌≡◌, refl, ◌⊎◌, inl, inr, Bool, true, false, Option, none, some, List, [],
  ◌∷◌, ◌++◌, arith, Bool-cases, Option-cases, Text, micros, to_number, round_ms, ◌∙◌, sym, ◌&&◌,
  text_eq, natural, string_of, is_text_iff, is_finite, is_text,
}
use forthway_command_center.Ha.Version.{RawVersion, clean_version, older}
use forthway_command_center.Ha.Wire.{RawRequest, Reply, Grant, RawPanel}
use forthway_command_center.Ha.Voter.State.{SavedVote, Voter, refusal, persist}
use forthway_command_center.Ha.Voter.Learn.{
  Effect, saves, sends, tells, Node, Setting, answering, reached, learn, learn_committed,
  learn_panels, is_leader,
}
use forthway_command_center.Ha.Voter.Reply.{
  Asked, Outcome, give_vote, end_handover, grant_of, grant_vote, answer, handle_reply, read_request,
  request_of, learned, prepend, asked_lease,
}
use forthway_command_center.Ha.Voter.Lease.{
  IsEntitled, refusal-IsEntitled, SameVote, learned-SameVote,
}

-- The grant among the effects, if there is one.
abbrev pub granted : List Effect → Option Grant
granted [] = none
granted (sends g ∷ es) = some g
granted (saves s ∷ es) = granted es
granted (tells ps ∷ es) = granted es

-- The vote on disk after the effects, given what was there before.
abbrev pub disk_after : SavedVote → List Effect → SavedVote
disk_after d [] = d
disk_after d (saves s ∷ es) = disk_after s es
disk_after d (sends g ∷ es) = disk_after d es
disk_after d (tells ps ∷ es) = disk_after d es

-- How a request was read.
pub record ReadAs (i : Text) (q : RawRequest) (a : Asked) : Type 0 where
  pub self : string_of q.candidate ≡ some i
  pub candidate : a.candidate ≡ i
  pub term : natural (to_number q.term) ≡ some a.term
  pub nonce : a.nonce ≡ to_number q.nonce
  pub finite : is_finite a.nonce ≡ true
  pub lease : a.lease_ms ≡ asked_lease q.lease_ms
  pub version : a.version ≡ q.version

read_request-ReadAs :
    (i : Text) (q : RawRequest) (a : Asked) → read_request i q ≡ some a → ReadAs i q a
unfolding read_request
read_request-ReadAs i q a h = ground (arith, is_text_iff (string_of q.candidate) i)

-- No grant leaves before the request is looked at.
pub granted-append : (xs ys : List Effect) → granted xs ≡ none → granted (xs ++ ys) ≡ granted ys
granted-append [] ys h = refl
granted-append (sends g ∷ xs) ys h = cc
granted-append (saves s ∷ xs) ys h = granted-append xs ys h
granted-append (tells ps ∷ xs) ys h = granted-append xs ys h

pub disk_after-append :
    (d : SavedVote) (xs ys : List Effect)
    → disk_after d (xs ++ ys) ≡ disk_after (disk_after d xs) ys
disk_after-append d [] ys = refl
disk_after-append d (sends g ∷ xs) ys = disk_after-append d xs ys
disk_after-append d (saves s ∷ xs) ys = disk_after-append s xs ys
disk_after-append d (tells ps ∷ xs) ys = disk_after-append d xs ys

learn_committed-granted :
    (e : Setting) (v : Voter) (c : Option RawVersion) → granted (learn_committed e v c).1 ≡ none
unfolding learn_committed
learn_committed-granted e v none = refl
learn_committed-granted e v (some c) = ground arith

learn_panels-granted :
    (e : Setting) (ps : Option (List RawPanel)) → granted (learn_panels e ps) ≡ none
unfolding learn_panels
learn_panels-granted e none = refl
learn_panels-granted e (some ps) = ground arith

pub learned-granted :
    (e : Setting) (v : Voter) (n : Node) (i : Text) (r : Reply)
    → granted (learned e v n i r).1 ≡ none
unfolding learned
learned-granted e v n i r = elim (Bool-cases (is_leader n.role && is_text n.leader_id i)) [
  | inl lead ↦ rw lead (
      unfold learn in
      (granted-append (learn_committed e _ r.committed).1 _
          (learn_committed-granted e _ r.committed)
        ∙ learn_panels-granted e r.panels))
  | inr other ↦ rw other
]

-- A vote that was given, from the voter `v` that was asked to the voter `w` that sends it.
pub record Given (now : ℕ) (v w : Voter) (r : Reply) (g : Grant) : Type 0 where
  pub request :
      (q : RawRequest) × (r.request ≡ some q)
      × (natural (to_number q.term) ≡ some g.term)
      × (g.nonce ≡ to_number q.nonce)
      × (g.lease_ms ≡ asked_lease q.lease_ms)
      × (older (clean_version q.version) w.known_committed ≡ false)
      × (string_of q.candidate ≡ some g.candidate)
  pub current : v.term ≤ g.term
  pub free : (v.voted_for ≡ some g.candidate) ⊎ (v.lease_until ≤ now)
  pub voted : w.voted_for ≡ some g.candidate
  pub term : w.term ≡ g.term
  pub lease : now + micros g.lease_ms ≤ w.lease_until
  pub length : w.lease_until ≤ now + micros w.lease_len + 500
  pub until : w.lease_until ≡ max v.lease_until (now + micros g.lease_ms)
  pub saved : w.lease_len ≡ max g.lease_ms (round_ms (w.lease_until - now))

-- The only way to a grant.
pub record Answered (e : Setting) (v : Voter) (n : Node) (o : Option Asked) (g : Grant)
    : Type 0 where
  pub asked : Asked
  pub read : o ≡ some asked
  pub entitled : IsEntitled v e.now asked.candidate asked.term asked.version
  pub grant : g ≡ grant_of asked
  pub voter : (answer e v n o).voter ≡ end_handover (give_vote e v asked) asked.candidate
  pub effects :
      (answer e v n o).effects ≡ saves (persist (give_vote e v asked)) ∷ sends (grant_of asked) ∷ []

pub answer-Answered :
    (e : Setting) (v : Voter) (n : Node) (o : Option Asked) {g : Grant}
    → granted (answer e v n o).effects ≡ some g
    → Answered e v n o g
unfolding answer grant_vote
answer-Answered e v n none h = cc
answer-Answered e v n (some a) {g} h =
    elim (Option-cases (refusal v e.now a.candidate a.term a.version)) [
      | inr (why, no_vote) ↦ absurd (ground arith)
      | inl vote ↦ elim (Bool-cases e.saves_vote) [
        | inr failed ↦ absurd (ground arith)
        | inl saved ↦ record {
          asked = a;
          read = refl;
          entitled = refusal-IsEntitled v e.now a.candidate a.term a.version vote;
          grant = ground arith;
          voter = ground arith;
          effects = ground arith;
        }
      ]
    ]

request_of-read :
    (b : Bool) (i : Text) (o : Option RawRequest) {a : Asked}
    → request_of b i o ≡ some a
    → (q : RawRequest) × (o ≡ some q) × ReadAs i q a
unfolding request_of
request_of-read true i o h = cc
request_of-read false i none h = cc
request_of-read false i (some q) {a} h = (q, refl, read_request-ReadAs i q a h)

-- The vote itself, before the handover that it may complete is dropped.
give_vote-Given :
    (e : Setting) (v : Voter) (a : Asked) (r : Reply) (q : RawRequest) (i : Text)
    → r.request ≡ some q
    → ReadAs i q a
    → IsEntitled v e.now a.candidate a.term a.version
    → Given e.now v (give_vote e v a) r (grant_of a)
unfolding give_vote
give_vote-Given e v a r q i p read h = record {
  request = (
    q,
    p,
    read.term,
    read.nonce,
    read.lease,
    rw (← read.version) h.complete,
    rw read.candidate read.self,
  );
  current = h.current;
  free = h.free;
  voted = refl;
  term = refl;
  lease = omega arith;
  length = omega arith;
  until = refl;
  saved = refl;
}

end_handover-Given :
    {now : ℕ} {v w : Voter} {r : Reply} {g : Grant} (i : Text)
    → Given now v w r g
    → Given now v (end_handover w i) r g
unfolding end_handover
end_handover-Given {w = w} i d = elim (Option-cases w.handover) [
  | inl e ↦ rw (e, end_handover) d
  | inr (k, e) ↦
      rw (e, end_handover)
        (elim (Bool-cases (text_eq k.target i)) [
          | inl same ↦ rw same (record {
            request = d.request;
            current = d.current;
            free = d.free;
            voted = d.voted;
            term = d.term;
            lease = d.lease;
            length = d.length;
            until = d.until;
            saved = d.saved;
          })
          | inr other ↦ rw other d
        ])
]

end_handover-persist : (w : Voter) (i : Text) → persist (end_handover w i) ≡ persist w
unfolding end_handover persist
end_handover-persist w i = ground arith

SameVote-Given :
    {now : ℕ} {u v w : Voter} {r : Reply} {g : Grant}
    → SameVote u v
    → Given now v w r g
    → Given now u w r g
SameVote-Given s d = record {
  request = d.request;
  current = omega (arith, s.term, d.current);
  free = ground (arith, s.vote, s.lease, d.free);
  voted = d.voted;
  term = d.term;
  lease = d.lease;
  length = d.length;
  until = omega (arith, s.lease, d.until);
  saved = d.saved;
}

-- A grant that leaves, with the saved vote that goes before it.
pub record Sent (e : Setting) (v : Voter) (n : Node) (r : Reply) (g : Grant) (o : Outcome)
    : Type 0 where
  pub given : Given e.now v o.voter r g
  pub from : answering n r ≡ some g.candidate
  pub before : List Effect
  pub silent : granted before ≡ none
  pub effects : o.effects ≡ before ++ saves (persist o.voter) ∷ sends g ∷ []

answer-Sent :
    (e : Setting) (v u : Voter) (n m : Node) (r : Reply) (g : Grant) (i : Text)
    (before : List Effect)
    → SameVote v u
    → answering n r ≡ some i
    → granted before ≡ none
    → granted (answer e u m (request_of e.follow_up i r.request)).effects ≡ some g
    → Sent e v n r g (prepend before (answer e u m (request_of e.follow_up i r.request)))
unfolding prepend
answer-Sent e v u n m r g i before same p silent h =
    let a = answer-Answered e u m (request_of e.follow_up i r.request) h in
    let (q, rq, read) = request_of-read e.follow_up i r.request a.read in
    record {
      given =
          rw (a.voter, a.grant)
            (end_handover-Given a.asked.candidate
              (SameVote-Given same (give_vote-Given e u a.asked r q i rq read a.entitled)));
      from = rw (p, a.grant, read.candidate);
      before = before;
      silent = silent;
      effects = rw (a.effects, a.voter, a.grant, end_handover-persist);
    }

-- When handling a reply sends a grant, the vote is saved just before, as it is in memory then; the
-- grant answers the request of the node that replied, in a term no older than the voter's and with
-- data not behind what is known to be committed; the voter had voted for this node or its lease was
-- over; and the new lease lasts at least as long as the grant says.
pub handle_reply-Sent :
    (e : Setting) (v : Voter) (n : Node) (r : Reply) (g : Grant)
    → granted (handle_reply e v n r).effects ≡ some g
    → Sent e v n r g (handle_reply e v n r)
unfolding handle_reply
handle_reply-Sent e v n r g h = elim (Option-cases (answering n r)) [
  | inl p ↦ absurd (cc (rw (p, handle_reply) at h))
  | inr (i, p) ↦
      rw (p, handle_reply)
        (let l = learned e v (reached e n r) i r in
          let quiet = learned-granted e v (reached e n r) i r in
          let h' = rw (p, handle_reply) at h in
          answer-Sent e v l.0 n (reached e n r) r g i l.1 (learned-SameVote e v (reached e n r) i r)
            p quiet (sym (granted-append l.1 _ quiet) ∙ unfold prepend in h'))
]
