-- ===== src/Ha/Safety/Invariant.antt =====
-- What holds of one voter and all panel nodes at any time.
use forthway_command_center.Base.{ℕ, ◌+◌, ◌≤◌, ◌<◌, ◌≡◌, ◌⊎◌, some, Text, micros, All, Has, Number}
use forthway_command_center.Ha.Timing.{lease_min_ms, lease_max_ms}
use forthway_command_center.Ha.Voter.Disk.{IsStored, IsClean}
use forthway_command_center.Ha.Panel.State.{Issued, Counted}
use forthway_command_center.Ha.Safety.System.{View, Posted, Cast, System}

-- Until the real time `end` the voter is held for node `c`: by the lease in memory, and by the one
-- that a restart would take up.
abbrev pub Held : System → Text → ℕ → Type 0
Held s c end =
    (end ≤ s.time)
    ⊎ ((s.voter.voted_for ≡ some c)
        × (end ≤ s.voter_boot + s.voter.lease_until)
        × (end ≤ s.saved_at + 500 + micros s.voter.lease_len))

-- Of an earlier run, or asked at the time that the nonce says.
abbrev pub Dated : View → ℕ → ℕ → ℕ → Type 0
Dated v term nonce at = (term < v.floor) ⊎ (at ≡ v.boot + nonce)

pub record IsPosted (s : System) (p : Posted) : Type 0 where
  pub own : p.request.candidate ≡ p.from
  pub past : p.at ≤ s.time
  pub dated : Dated (s.views p.from) p.request.term p.request.nonce p.at

-- The request that a grant answers.
pub record Answers (s : System) (x : Cast) (p : Posted) : Type 0 where
  pub posted : Has p s.requests
  pub own : p.from ≡ x.grant.candidate
  pub term : p.request.term ≡ x.grant.term
  pub nonce : x.grant.nonce ≡ Number.decimal p.request.nonce
  pub at : p.at ≡ x.at

pub record IsCast (s : System) (x : Cast) : Type 0 where
  pub origin : Posted
  pub answers : Answers s x origin
  pub short : lease_min_ms ≤ x.grant.lease_ms
  pub long : x.grant.lease_ms ≤ lease_max_ms
  pub held : Held s x.grant.candidate (x.at + micros x.grant.lease_ms)

abbrev pub IsIssued : ℕ → ℕ → Issued → Type 0
IsIssued margin floor e = (margin ≤ e.margin_ms) × (floor ≤ e.term)

-- The grant that a node counts ends `margin` before the voter is free again.
abbrev pub Counts : ℕ → System → Text → View → Type 0
Counts margin s c v =
    (g : Counted) → v.counted ≡ some g → 0 < g.until → Held s c (v.boot + g.until + micros margin)

pub record Inv (margin : ℕ) (s : System) : Type 0 where
  pub booted : s.voter_boot ≤ s.time
  pub saved : s.saved_at ≤ s.time
  pub stored : IsStored s.disk s.voter
  pub clean : IsClean s.disk
  pub cap : s.voter_boot + s.voter.lease_until ≤ s.time + micros lease_max_ms
  pub requests : All (IsPosted s) s.requests
  pub casts : All (IsCast s) s.casts
  pub issued : (c : Text) → All (IsIssued margin (s.views c).floor) (s.views c).issued
  pub counted : (c : Text) → Counts margin s c (s.views c)
