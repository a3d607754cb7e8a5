-- ===== src/Ha/Safety/Exclusion.antt =====
-- No voter counts for two panel nodes at once.
use forthway_command_center.Base.{ℕ, ◌+◌, ◌<◌, ◌≡◌, inl, inr, some, arith, Text, micros, sym, Value}
use forthway_command_center.Ha.Panel.State.{Counted}
use forthway_command_center.Ha.Voter.Disk.{create_voter-Resumes}
use forthway_command_center.Ha.Safety.System.{
  System, Step, Reach, wait, ask, count, drop, restart, vote, hear, reboot, start, next, initial,
  blank_vote,
}
use forthway_command_center.Ha.Safety.Invariant.{Inv}
use forthway_command_center.Ha.Safety.Nodes.{wait-Inv, asked-Inv, count-Inv, drop-Inv, restart-Inv}
use forthway_command_center.Ha.Safety.Votes.{vote-Inv, hear-Inv, reboot-Inv}

pub Step-Inv : {margin : ℕ} {s t : System} → Step margin s t → Inv margin s → Inv margin t
Step-Inv (wait d) inv = wait-Inv inv d
Step-Inv (ask q m fl mg clock) inv = asked-Inv inv q m fl mg clock
Step-Inv (count x e now m clock h) inv = count-Inv inv x e now m h
Step-Inv (drop c) inv = drop-Inv inv c
Step-Inv (restart c floor old) inv = restart-Inv inv c floor old
Step-Inv (vote e n r p m clock q) inv = vote-Inv inv e n r p m clock q
Step-Inv (hear e n r clock q) inv = hear-Inv inv e n r q
Step-Inv (reboot heartbeat late) inv = reboot-Inv inv heartbeat late

initial-Inv : (margin : ℕ) → Inv margin initial
initial-Inv margin =
    let r =
      create_voter-Resumes blank_vote Value.undefined 0
        (record { id = λ i e. cc; short = omega arith; long = omega arith }) in
    record {
      booted = omega arith;
      saved = omega arith;
      stored = record { vote = sym r.vote; length = sym r.length };
      clean = record { id = λ i e. cc; short = omega arith; long = omega arith };
      cap = omega (arith, r.lease);
      requests = tt;
      casts = tt;
      issued = λ c. tt;
      counted = λ c g e pos. cc;
    }

pub Reach-Inv : {margin : ℕ} {s : System} → Reach margin s → Inv margin s
Reach-Inv {margin} start = initial-Inv margin
Reach-Inv (next r st) = Step-Inv st (Reach-Inv r)

-- The node counts a grant of this voter, or did so less than the margin ago.
pub record CountsNow (margin : ℕ) (s : System) (c : Text) : Type 0 where
  pub grant : Counted
  pub counted : (s.views c).counted ≡ some grant
  pub some_time : 0 < grant.until
  pub live : s.time < (s.views c).boot + grant.until + micros margin

-- A node that counts the vote has it.
pub CountsNow-voted :
    {margin : ℕ} {s : System} (c : Text)
    → Inv margin s
    → CountsNow margin s c
    → (s.voter.voted_for ≡ some c) × (s.time < s.voter_boot + s.voter.lease_until)
CountsNow-voted {s = s} c inv k = elim (inv.counted c k.grant k.counted k.some_time) [
  | inl past ↦ absurd (omega (arith, k.live))
  | inr (v, l, d) ↦ (v, omega (arith, k.live))
]

-- In every reachable state, however messages are lost, late or repeated and however often the voter
-- and the panel nodes restart, two panel nodes that each count a grant of the voter now, or did so
-- less than the margin ago, are the same node.
pub one_node_at_a_time :
    {margin : ℕ} {s : System} (c d : Text)
    → Reach margin s
    → CountsNow margin s c
    → CountsNow margin s d
    → c ≡ d
one_node_at_a_time c d r k l =
    let inv = Reach-Inv r in cc ((CountsNow-voted c inv k).0, (CountsNow-voted d inv l).0)
