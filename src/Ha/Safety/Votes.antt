-- ===== src/Ha/Safety/Votes.antt =====
-- The steps of the voter keep the invariant.
use forthway_command_center.Base.{
  ℕ, ◌+◌, ◌≤◌, ◌≡◌, refl, inl, inr, true, none, some, ◌∷◌, arith, Text, micros, Has, All-map, sym,
  ◌∙◌, ap, Bool-cases, Option-cases, All-Has, subst, Value, is_id, clean_id,
}
use forthway_command_center.Ha.Timing.{lease_min_ms, lease_max_ms}
use forthway_command_center.Ha.Timing.Bounds.{clean_lease_ms_bounds}
use forthway_command_center.Ha.Wire.{Reply, Grant}
use forthway_command_center.Ha.Voter.State.{SavedVote, Voter, create_voter, raw_vote, persist}
use forthway_command_center.Ha.Voter.Learn.{Node, Setting, answering}
use forthway_command_center.Ha.Voter.Reply.{Outcome, handle_reply, asked_lease}
use forthway_command_center.Ha.Voter.Lease.{SameVote}
use forthway_command_center.Ha.Voter.Grants.{
  granted, disk_after, disk_after-append, Given, Sent, handle_reply-Sent,
}
use forthway_command_center.Ha.Voter.Disk.{
  IsStored, IsClean, Quiet, handle_reply-Quiet, Resumes, create_voter-Resumes,
}
use forthway_command_center.Ha.Panel.Ballot.{raw_request}
use forthway_command_center.Ha.Safety.System.{Posted, Cast, System, heard}
use forthway_command_center.Ha.Safety.Invariant.{Held, IsPosted, Answers, IsCast, Inv}

clean_id-is_id : (v : Value) {i : Text} → clean_id v ≡ some i → is_id i ≡ true
clean_id-is_id (Value.text t x) {i} h = elim (Bool-cases (is_id t)) [
  | inl e ↦ subst (λ u. is_id u ≡ true) (ground arith) e
  | inr e ↦ absurd (ground arith)
]
clean_id-is_id Value.undefined h = cc
clean_id-is_id Value.null h = cc
clean_id-is_id (Value.bool b) h = cc
clean_id-is_id (Value.num x) h = cc
clean_id-is_id (Value.object x) h = cc

IsClean-same :
    {d d' : SavedVote} {v w : Voter}
    → IsClean d
    → IsStored d v
    → SameVote v w
    → IsStored d' w
    → IsClean d'
IsClean-same c st a st' = record {
  id = λ i e. c.id i (st.vote ∙ sym a.vote ∙ sym st'.vote ∙ e);
  short = omega (arith, c.short, st.length, a.length, st'.length);
  long = omega (arith, c.long, st.length, a.length, st'.length);
}

Held-reboot :
    (s : System) (c : Text) (end : ℕ) (v : Voter)
    → s.saved_at + 500 ≤ s.time
    → IsStored s.disk s.voter
    → Resumes s.disk 0 v
    → Held s c end
    → Held (record s { voter = v; voter_boot = s.time }) c end
Held-reboot s c end v late st r (inl past) = inl past
Held-reboot s c end v late st r (inr (vote, lease, disk)) =
    inr (
      r.vote ∙ st.vote ∙ vote,
      omega (arith, r.lease, st.length),
      omega (arith, r.length, st.length),
    )

Held-quiet :
    (s : System) (c : Text) (end : ℕ) (v : Voter) (d : SavedVote)
    → SameVote s.voter v
    → Held s c end
    → Held (record s { voter = v; disk = d }) c end
Held-quiet s c end v d a (inl past) = inl past
Held-quiet s c end v d a (inr (vote, lease, disk)) =
    inr (a.vote ∙ vote, omega (arith, a.lease), omega (arith, a.length))

answering-is_id : (n : Node) (r : Reply) {i : Text} → answering n r ≡ some i → is_id i ≡ true
unfolding answering
answering-is_id n r {i} h = clean_id-is_id r.node_id (ground arith)

asked_lease_bounds : (v : Value) → (lease_min_ms ≤ asked_lease v) × (asked_lease v ≤ lease_max_ms)
asked_lease_bounds v = ground (arith, clean_lease_ms_bounds v)

-- A vote for node `g.candidate`: who was held stays held.
Held-Given :
    (s : System) (c : Text) (end now : ℕ) (v : Voter) (d : SavedVote) (r : Reply) (g : Grant)
    → s.voter_boot + now ≡ s.time
    → Given now s.voter v r g
    → Held s c end
    → Held (record s { voter = v; disk = d; saved_at = s.time }) c end
Held-Given s c end now v d r g clock k (inl past) = inl past
Held-Given s c end now v d r g clock k (inr (vote, lease, disk)) = elim k.free [
  | inr expired ↦ inl (omega arith)
  | inl same ↦
      inr (k.voted ∙ sym same ∙ vote, omega (arith, k.until), omega (arith, k.until, k.length))
]

-- The voter's own state after a step.
abbrev after : System → Voter → ℕ → SavedVote → ℕ → System
after s v boot d saved = record s { voter = v; voter_boot = boot; disk = d; saved_at = saved }

module _ {margin : ℕ} {s : System} (inv : Inv margin s) where
  -- A voter that holds at least what it held before.
  voter-Inv :
      (v : Voter) (boot : ℕ) (d : SavedVote) (saved : ℕ)
      → boot ≤ s.time
      → saved ≤ s.time
      → IsStored d v
      → IsClean d
      → boot + v.lease_until ≤ s.time + micros lease_max_ms
      → ((c : Text) (end : ℕ) → Held s c end → Held (after s v boot d saved) c end)
      → Inv margin (after s v boot d saved)
  voter-Inv v boot d saved booted past stored clean cap keep = record {
    booted = booted;
    saved = past;
    stored = stored;
    clean = clean;
    cap = cap;
    requests =
        All-map s.requests (λ p k. record { own = k.own; past = k.past; dated = k.dated })
          inv.requests;
    casts =
        All-map s.casts
          (λ x k. record {
            origin = k.origin;
            answers = record {
              posted = k.answers.posted;
              own = k.answers.own;
              term = k.answers.term;
              nonce = k.answers.nonce;
              at = k.answers.at;
            };
            short = k.short;
            long = k.long;
            held = keep x.grant.candidate _ k.held;
          })
          inv.casts;
    issued = inv.issued;
    counted = λ c g e pos. keep c _ (inv.counted c g e pos);
  }

  cast-Inv : (x : Cast) → IsCast s x → Inv margin (record s { casts = x ∷ s.casts })
  cast-Inv x h = record {
    booted = inv.booted;
    saved = inv.saved;
    stored = inv.stored;
    clean = inv.clean;
    cap = inv.cap;
    requests =
        All-map s.requests (λ p k. record { own = k.own; past = k.past; dated = k.dated })
          inv.requests;
    casts = (again h, All-map s.casts (λ y k. again k) inv.casts);
    issued = inv.issued;
    counted = inv.counted;
  }
    where
      again : {y : Cast} → IsCast s y → IsCast (record s { casts = x ∷ s.casts }) y
      again k = record {
        origin = k.origin;
        answers = record {
          posted = k.answers.posted;
          own = k.answers.own;
          term = k.answers.term;
          nonce = k.answers.nonce;
          at = k.answers.at;
        };
        short = k.short;
        long = k.long;
        held = k.held;
      }

  pub reboot-Inv :
      (heartbeat : Value)
      → s.saved_at + 500 ≤ s.time
      → Inv margin
          (record s { voter = create_voter (raw_vote s.disk) heartbeat 0; voter_boot = s.time })
  reboot-Inv heartbeat late =
      let v = create_voter (raw_vote s.disk) heartbeat 0 in
      let r = create_voter-Resumes s.disk heartbeat 0 inv.clean in
      voter-Inv v s.time s.disk s.saved_at (omega arith) inv.saved
        (record { vote = sym r.vote; length = sym r.length }) inv.clean
        (omega (arith, r.lease, inv.clean.long))
        λ c end h. Held-reboot s c end v late (inv.stored) r h

  Quiet-Inv :
      (at : ℕ) (o : Outcome)
      → granted o.effects ≡ none
      → Quiet (disk_after s.disk o.effects) s.voter o.voter
      → Inv margin (heard s at o)
  Quiet-Inv at o h q = rw h (
      voter-Inv o.voter s.voter_boot (disk_after s.disk o.effects) s.saved_at inv.booted inv.saved
        q.stored (IsClean-same inv.clean inv.stored q.same q.stored)
        (omega (arith, inv.cap, q.same.lease))
        (λ c end k. Held-quiet s c end o.voter (disk_after s.disk o.effects) q.same k))

-- The vote that goes out is on disk.
disk_after-Sent :
    {e : Setting} {v : Voter} {n : Node} {r : Reply} {g : Grant} {o : Outcome} (d : SavedVote)
    → Sent e v n r g o
    → disk_after d o.effects ≡ persist o.voter
disk_after-Sent d sent = ap (disk_after d) sent.effects ∙ disk_after-append d sent.before _

persist-IsStored : (v : Voter) → IsStored (persist v) v
unfolding persist
persist-IsStored v = record { vote = refl; length = refl }

persist-IsClean :
    (v : Voter) {i : Text}
    → v.voted_for ≡ some i
    → is_id i ≡ true
    → lease_min_ms ≤ v.lease_len
    → v.lease_len ≤ lease_max_ms
    → IsClean (persist v)
unfolding persist
persist-IsClean v p h lo hi = record {
  id = λ j e. subst (λ k. is_id k ≡ true) (ground arith) h;
  short = lo;
  long = hi;
}

-- The request that a vote answers, as it was posted.
Given-Answers :
    (s : System) (p : Posted) (now : ℕ) (v w : Voter) (r : Reply) (g : Grant)
    → IsPosted s p
    → Has p s.requests
    → r.request ≡ some (raw_request p.request)
    → Given now v w r g
    → Answers s (record { grant = g; at = p.at }) p
unfolding raw_request
Given-Answers s p now v w r g asked m q k = record {
  posted = m;
  own = ground (arith, asked.own, k.request.6);
  term = ground (arith, k.request.2);
  nonce = ground (arith, k.request.3);
  at = refl;
}

Given-lease :
    (now : ℕ) (v w : Voter) (r : Reply) (g : Grant)
    → Given now v w r g
    → (lease_min_ms ≤ g.lease_ms) × (g.lease_ms ≤ lease_max_ms)
Given-lease now v w r g k = omega (arith, k.request.4, asked_lease_bounds k.request.0.lease_ms)

Sent-Inv :
    {margin : ℕ} {s : System} (inv : Inv margin s) (e : Setting) (n : Node) (r : Reply) (p : Posted)
    (o : Outcome) (g : Grant)
    → Has p s.requests
    → s.voter_boot + e.now ≡ s.time
    → r.request ≡ some (raw_request p.request)
    → Sent e s.voter n r g o
    → granted o.effects ≡ some g
    → Inv margin (heard s p.at o)
Sent-Inv {margin} {s} inv e n r p o g m clock q sent h =
    rw (h, disk_after-Sent s.disk sent)
      (cast-Inv voted (record { grant = g; at = p.at })
        (record {
          origin = p;
          answers =
              let a = Given-Answers s p e.now s.voter o.voter r g asked m q k in
              record { posted = a.posted; own = a.own; term = a.term; nonce = a.nonce; at = a.at };
          short = lease.0;
          long = lease.1;
          held = inr (
            k.voted,
            omega (arith, k.lease, asked.past),
            omega (arith, k.lease, k.length, asked.past),
          );
        }))
  where
    k : Given e.now s.voter o.voter r g
    k = sent.given

    asked : IsPosted s p
    asked = All-Has (IsPosted s) s.requests inv.requests m

    lease : (lease_min_ms ≤ g.lease_ms) × (g.lease_ms ≤ lease_max_ms)
    lease = Given-lease e.now s.voter o.voter r g k

    voted : Inv margin (after s o.voter s.voter_boot (persist o.voter) s.time)
    voted =
        voter-Inv inv o.voter s.voter_boot (persist o.voter) s.time inv.booted (omega arith)
          (persist-IsStored o.voter)
          (persist-IsClean o.voter k.voted (answering-is_id n r sent.from)
            (omega (arith, k.saved, lease)) (omega (arith, k.saved, k.until, lease, inv.cap)))
          (omega (arith, k.until, lease, inv.cap))
          (λ c end. Held-Given s c end e.now o.voter (persist o.voter) r g clock k)

-- Any reply to the voter.
heard-Inv :
    {margin : ℕ} {s : System} (inv : Inv margin s) (e : Setting) (n : Node) (r : Reply) (at : ℕ)
    → granted (handle_reply e s.voter n r).effects ≡ none
    → Inv margin (heard s at (handle_reply e s.voter n r))
heard-Inv {s = s} inv e n r at h =
    Quiet-Inv inv at (handle_reply e s.voter n r) h
      (handle_reply-Quiet e s.voter n r s.disk inv.stored h)

pub vote-Inv :
    {margin : ℕ} {s : System} (inv : Inv margin s) (e : Setting) (n : Node) (r : Reply) (p : Posted)
    → Has p s.requests
    → s.voter_boot + e.now ≡ s.time
    → r.request ≡ some (raw_request p.request)
    → Inv margin (heard s p.at (handle_reply e s.voter n r))
vote-Inv {s = s} inv e n r p m clock q =
    elim (Option-cases (granted (handle_reply e s.voter n r).effects)) [
      | inl h ↦ heard-Inv inv e n r p.at h
      | inr (g, h) ↦
          Sent-Inv inv e n r p (handle_reply e s.voter n r) g m clock q
            (handle_reply-Sent e s.voter n r g h) h
    ]

-- Without a request there is no vote.
pub hear-Inv :
    {margin : ℕ} {s : System} (inv : Inv margin s) (e : Setting) (n : Node) (r : Reply)
    → r.request ≡ none
    → Inv margin (heard s 0 (handle_reply e s.voter n r))
hear-Inv {s = s} inv e n r q = elim (Option-cases (granted (handle_reply e s.voter n r).effects)) [
  | inl h ↦ heard-Inv inv e n r 0 h
  | inr (g, h) ↦
      let k = (handle_reply-Sent e s.voter n r g h).given.request in absurd (ground (arith, k.1))
]
