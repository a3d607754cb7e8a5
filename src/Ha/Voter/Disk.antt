-- ===== src/Ha/Voter/Disk.antt =====
-- The saved vote of shared/ha-voter.mjs: it follows the vote in memory, and a restart takes it up.
use forthway_command_center.Base.{
  ℕ, ◌+◌, ◌≤◌, ◌≡◌, refl, inl, inr, true, Option, none, some, List, [], arith, Bool-cases,
  Option-cases, Text, micros, sym, ◌∙◌, ◌&&◌, is_text, is_id, Value, clean_id,
}
use forthway_command_center.Ha.Timing.{lease_min_ms, lease_max_ms}
use forthway_command_center.Ha.Timing.Bounds.{clean_lease_ms-whole}
use forthway_command_center.Ha.Version.{RawVersion, clean-raw_version}
use forthway_command_center.Ha.Wire.{Reply, RawPanel}
use forthway_command_center.Ha.Voter.State.{
  SavedVote, Voter, persist, create_voter, raw_vote, raw_text,
}
use forthway_command_center.Ha.Voter.Learn.{
  Node, Setting, answering, reached, learn, learn_timings, learn_committed, learn_panels, is_leader,
}
use forthway_command_center.Ha.Voter.Reply.{
  Asked, grant_vote, answer, handle_reply, learned, prepend, request_of,
}
use forthway_command_center.Ha.Voter.Lease.{
  SameVote, learn_timings-SameVote, learn_handover-SameVote, learned-SameVote, SameVote-refl,
}
use forthway_command_center.Ha.Voter.Grants.{
  granted, disk_after, disk_after-append, granted-append, learned-granted,
}

-- Disk and memory agree on the vote.
pub record IsStored (d : SavedVote) (v : Voter) : Type 0 where
  pub vote : d.voted_for ≡ v.voted_for
  pub length : d.lease_ms ≡ v.lease_len

SameVote-IsStored : {d : SavedVote} {v w : Voter} → SameVote v w → IsStored d v → IsStored d w
SameVote-IsStored a s = record { vote = s.vote ∙ sym a.vote; length = s.length ∙ sym a.length }

learn_committed-IsStored :
    (e : Setting) (v : Voter) (c : Option RawVersion) (d : SavedVote)
    → IsStored d v
    → IsStored (disk_after d (learn_committed e v c).1) (learn_committed e v c).0
unfolding learn_committed persist
learn_committed-IsStored e v none d s = s
learn_committed-IsStored e v (some c) d s = ground arith

disk_after-learn_panels :
    (e : Setting) (ps : Option (List RawPanel)) (d : SavedVote)
    → disk_after d (learn_panels e ps) ≡ d
unfolding learn_panels
disk_after-learn_panels e none d = refl
disk_after-learn_panels e (some ps) d = ground arith

learn-IsStored :
    (e : Setting) (v : Voter) (r : Reply) (d : SavedVote)
    → IsStored d v
    → IsStored (disk_after d (learn e v r).1) (learn e v r).0
unfolding learn
learn-IsStored e v r d s =
    let v₁ = learn_timings v r.timings in
    let l = learn_committed e v₁ r.committed in
    let s₁ =
      learn_committed-IsStored e v₁ r.committed d
        (SameVote-IsStored (learn_timings-SameVote v r.timings) s) in
    rw (disk_after-append d l.1 (learn_panels e r.panels), disk_after-learn_panels)
      (SameVote-IsStored (learn_handover-SameVote e l.0 _) s₁)

learned-IsStored :
    (e : Setting) (v : Voter) (n : Node) (i : Text) (r : Reply) (d : SavedVote)
    → IsStored d v
    → IsStored (disk_after d (learned e v n i r).1) (learned e v n i r).0
unfolding learned
learned-IsStored e v n i r d s = elim (Bool-cases (is_leader n.role && is_text n.leader_id i)) [
  | inl lead ↦ rw lead (learn-IsStored e v r d s)
  | inr other ↦ rw other s
]

-- A reply that brings no grant out leaves the vote and its lease as they are.
pub record Quiet (d : SavedVote) (v w : Voter) : Type 0 where
  pub same : SameVote v w
  pub stored : IsStored d w

answer-quiet :
    (e : Setting) (v : Voter) (n : Node) (o : Option Asked)
    → granted (answer e v n o).effects ≡ none
    → ((answer e v n o).voter ≡ v) × ((answer e v n o).effects ≡ [])
unfolding answer grant_vote
answer-quiet e v n none h = (refl, refl)
answer-quiet e v n (some q) h = ground arith

-- When disk and memory agree on the vote and a reply brings no grant out, the voter's vote, term and
-- lease stay as they were, and disk and memory still agree.
pub handle_reply-Quiet :
    (e : Setting) (v : Voter) (n : Node) (r : Reply) (d : SavedVote)
    → IsStored d v
    → granted (handle_reply e v n r).effects ≡ none
    → Quiet (disk_after d (handle_reply e v n r).effects) v (handle_reply e v n r).voter
unfolding handle_reply prepend
handle_reply-Quiet e v n r d s h = elim (Option-cases (answering n r)) [
  | inl p ↦ rw (p, handle_reply) (record { same = SameVote-refl v; stored = s })
  | inr (i, p) ↦
      let l = learned e v (reached e n r) i r in
      let o = answer e l.0 (reached e n r) (request_of e.follow_up i r.request) in
      let quiet = learned-granted e v (reached e n r) i r in
      let h' = rw (p, handle_reply) at h in
      let a =
        answer-quiet e l.0 (reached e n r) (request_of e.follow_up i r.request)
          (sym (granted-append l.1 o.effects quiet) ∙ h') in
      rw (p, handle_reply, disk_after-append d l.1 o.effects, a.0, a.1)
        (record {
          same = learned-SameVote e v (reached e n r) i r;
          stored = learned-IsStored e v (reached e n r) i r d s;
        })
]

-- A saved vote is what the next start of the voter goes by: its vote, its term, what it knows to be
-- committed, and its last lease in full from the moment of the start.
pub record Resumes (d : SavedVote) (now : ℕ) (v : Voter) : Type 0 where
  pub vote : v.voted_for ≡ d.voted_for
  pub term : v.term ≡ d.term
  pub committed : v.known_committed ≡ d.known_committed
  pub length : v.lease_len ≡ d.lease_ms
  pub lease : v.lease_until ≡ now + micros d.lease_ms

-- What a saved vote meets: the id was checked, and the lease length is a clean one.
pub record IsClean (d : SavedVote) : Type 0 where
  pub id : (i : Text) → d.voted_for ≡ some i → is_id i ≡ true
  pub short : lease_min_ms ≤ d.lease_ms
  pub long : d.lease_ms ≤ lease_max_ms

raw_id : (o : Option Text) → ((i : Text) → o ≡ some i → is_id i ≡ true) → clean_id (raw_text o) ≡ o
raw_id none h = refl
raw_id (some i) h = rw (h i refl)

-- A voter that starts from a clean saved vote takes up its vote, its term, what it knows to be
-- committed and its lease length, and holds that lease in full from the moment of the start.
pub create_voter-Resumes :
    (d : SavedVote) (heartbeat : Value) (now : ℕ)
    → IsClean d
    → Resumes d now (create_voter (raw_vote d) heartbeat now)
unfolding create_voter raw_vote
create_voter-Resumes d heartbeat now c = record {
  vote = raw_id d.voted_for c.id;
  term = ground arith;
  committed = clean-raw_version d.known_committed;
  length = clean_lease_ms-whole d.lease_ms c.short c.long;
  lease = rw (clean_lease_ms-whole d.lease_ms c.short c.long);
}
