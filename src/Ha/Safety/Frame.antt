-- ===== src/Ha/Safety/Frame.antt =====
-- How the invariant's parts move from one state to the next.
use forthway_command_center.Base.{
  ℕ, ◌+◌, ◌≤◌, ◌≡◌, ◌⊎◌, inl, inr, arith, Text, text_eq, text_eq_iff, ap, Bool-cases,
}
use forthway_command_center.Ha.Safety.System.{View, System, update}
use forthway_command_center.Ha.Safety.Invariant.{Held, Dated}

pub update-cases :
    (f : Text → View) (c d : Text) (v : View)
    → ((c ≡ d) × (update f c v d ≡ v)) ⊎ (update f c v d ≡ f d)
update-cases f c d v = elim (Bool-cases (text_eq c d)) [
  | inl e ↦ inl ((text_eq_iff c d).0 e, rw e)
  | inr e ↦ inr (rw e)
]

-- A hold for longer is a hold for less.
pub Held-le :
    (s : System) (c : Text) {end sooner : ℕ} → sooner ≤ end → Held s c end → Held s c sooner
Held-le s c h (inl past) = inl (omega arith)
Held-le s c h (inr (v, l, d)) = inr (v, omega arith, omega arith)

-- A node that changes its view of the voter without a restart.
pub Dated-update :
    (f : Text → View) (c d : Text) (v : View) (term nonce at : ℕ)
    → v.boot ≡ (f c).boot
    → v.floor ≡ (f c).floor
    → Dated (f d) term nonce at
    → Dated (update f c v d) term nonce at
Dated-update f c d v term nonce at b fl h = elim (update-cases f c d v) [
  | inl (e, p) ↦ rw p (omega (arith, ap (λ x. (f x).floor) e, ap (λ x. (f x).boot) e))
  | inr p ↦ rw p h
]

pub Held-wait :
    (s : System) (c : Text) (end d : ℕ) → Held s c end → Held (record s { time = s.time + d }) c end
Held-wait s c end d (inl past) = inl (omega arith)
Held-wait s c end d (inr h) = inr h
