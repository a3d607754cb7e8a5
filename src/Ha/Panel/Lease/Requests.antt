-- ===== src/Ha/Panel/Lease/Requests.antt =====
-- What the list of issued requests promises (validIssued, recordIssued, grantUntil of
-- panel/lib/ha.mjs).
use forthway_command_center.Base.{
  ℕ, ◌+◌, ◌-◌, ◌≤◌, ◌<◌, ◌≡◌, inl, inr, Bool, true, some, List, [], ◌∷◌, ◌++◌, arith, ltb, ◌==◌,
  ◌&&◌, find_first, length, select, All, All-append, All-select, Has, here, there, Number, micros,
  Bool-cases, Option-cases, subst, whole,
}
use forthway_command_center.Ha.Timing.{lease_min_ms, lease_max_ms}
use forthway_command_center.Ha.Timing.Bounds.{clean_lease_ms-whole}
use forthway_command_center.Ha.Panel.State.{Issued}
use forthway_command_center.Ha.Panel.Lease.{valid_issued, record_issued, grant_until, shift_to}

find_first-Has :
    (p : Issued → Bool) (es : List Issued) {e : Issued}
    → find_first p es ≡ some e
    → Has e es × (p e ≡ true)
find_first-Has p [] h = cc
find_first-Has p (x ∷ es) {e} h = elim (Bool-cases (p x)) [
  | inl t ↦ (here (ground arith), ground arith)
  | inr t ↦ let m = find_first-Has p es {e = e} (ground arith) in (there m.0, m.1)
]

-- What there is to say of the request that is found.
pub record IsFound (es : List Issued) (now t : ℕ) (nonce : Number) (e : Issued) : Type 0 where
  pub listed : Has e es
  pub term : e.term ≡ t
  pub nonce_eq : nonce ≡ Number.decimal e.nonce
  pub past : e.nonce ≤ now
  pub live : now < e.nonce + micros e.lease_ms - micros e.margin_ms

-- A request that is found for a term and a nonce is one of those handed out, with this term and
-- this nonce, which is not in the future; and its lease less its margin is not over.
pub valid_issued-IsFound :
    (es : List Issued) (now t : ℕ) (nonce : Number) {e : Issued}
    → valid_issued es now t nonce ≡ some e
    → IsFound es now t nonce e
unfolding valid_issued
valid_issued-IsFound es now t (Number.decimal n) {e} h =
    elim (Option-cases (find_first (λ o. (o.term == t) && (o.nonce == n)) es)) [
      | inl p ↦ absurd (ground arith)
      | inr (o, p) ↦
          let m = find_first-Has (λ o. (o.term == t) && (o.nonce == n)) es p in
          let same : o ≡ e = ground arith in
          record {
            listed = subst (λ x. Has x es) same m.0;
            term = ground (arith, m.1);
            nonce_eq = ground (arith, m.1);
            past = ground arith;
            live = ground arith;
          }
    ]
valid_issued-IsFound es now t Number.nan h = cc
valid_issued-IsFound es now t Number.infinity h = cc
valid_issued-IsFound es now t Number.neg_infinity h = cc
valid_issued-IsFound es now t (Number.below_zero n) h = cc

module _ {κ} (P : Issued → Type κ) where
  All-shift_to : (limit : ℕ) (es : List Issued) → All P es → All P (shift_to limit es)
  All-shift_to limit [] h = tt
  All-shift_to limit (e ∷ es) h = elim (Bool-cases (ltb limit (length (e ∷ es)))) [
    | inl t ↦ rw t (All-shift_to limit es h.1)
    | inr t ↦ rw t h
  ]

  pub All-record_issued :
      (es : List Issued) (now : ℕ) (e : Issued) → All P es → P e → All P (record_issued es now e)
  unfolding record_issued
  All-record_issued es now e h k =
      All-shift_to 32 _ (All-append P _ (e ∷ []) (All-select P _ es h) (k, tt))

-- The list of requests to one voter stays short.
length-shift_to : (limit : ℕ) (es : List Issued) → length (shift_to limit es) ≤ limit
length-shift_to limit [] = omega arith
length-shift_to limit (e ∷ es) = elim (Bool-cases (ltb limit (length (e ∷ es)))) [
  | inl t ↦ rw t (length-shift_to limit es)
  | inr t ↦ rw t (ground arith)
]

pub length-record_issued :
    (es : List Issued) (now : ℕ) (e : Issued) → length (record_issued es now e) ≤ 32
unfolding record_issued
length-record_issued es now e =
    length-shift_to 32 (select (λ o. ltb (now - o.nonce) (micros o.lease_ms)) es ++ e ∷ [])

-- A grant for a lease within the limits that counts at all ends at least its margin before the end
-- of that lease and of the lease that was asked for, both counted from the request.
pub grant_until-le :
    (e : Issued) (lease : ℕ)
    → lease_min_ms ≤ lease
    → lease ≤ lease_max_ms
    → 0 < grant_until e (whole lease)
    → (grant_until e (whole lease) + micros e.margin_ms ≤ e.nonce + micros lease)
      × (grant_until e (whole lease) + micros e.margin_ms ≤ e.nonce + micros e.lease_ms)
unfolding grant_until
grant_until-le e lease lo hi pos = omega (arith, clean_lease_ms-whole lease lo hi)
