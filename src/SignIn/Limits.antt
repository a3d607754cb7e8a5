-- ===== src/SignIn/Limits.antt =====
-- The throttle of panel/lib/auth.mjs, one key and another.
use forthway_command_center.Base.{
  ℕ, ◌≤◌, ◌≡◌, refl, sym, ap, ◌∙◌, inl, inr, Bool, true, false, not, ◌&&◌, Option, none, some, List,
  [], ◌∷◌, ltb, leb, if◌then◌else◌, length, select, arith, Text, text_eq, text_eq_iff, map_get,
  map_set, map_get-map_set, map_get-lacks, lacks, IsMap, map_set-IsMap, Bool-cases, Option-cases,
}
use forthway_command_center.SignIn.Throttle.{
  Attempts, Throttle, Verdict, allowed, retry_after, is_past, check, check_as, counted, swept, fail,
}

module _ {ℓ} {A : Type ℓ} (p : A → Bool) where
  abbrev pub passing : Option A → Option A
  passing none = none
  passing (some a) = if p a then some a else none

  pub lacks-select :
      (m : List (Text × A)) (k : Text) → lacks k m ≡ true → lacks k (select (λ x. p x.1) m) ≡ true
  lacks-select [] k h = refl
  lacks-select ((j, a) ∷ m) k h = ground (arith, lacks-select m k)

  pub map_get-select :
      (m : List (Text × A)) (k : Text)
      → IsMap m
      → map_get (select (λ x. p x.1) m) k ≡ passing (map_get m k)
  unfolding map_get
  map_get-select [] k h = refl
  map_get-select ((j, a) ∷ m) k h = ground (
    arith,
    text_eq_iff j k,
    map_get-select m k h.1,
    map_get-lacks (select (λ x. p x.1) m) k,
    lacks-select m k,
  )

-- Whether a sign-in is refused.
abbrev pub refuses : Throttle → ℕ → Option Attempts → Bool
refuses t now none = false
refuses t now (some r) = not (is_past t now r) && leb t.max_attempts r.count

abbrev pub is_refusal : Verdict → Bool
is_refusal allowed = false
is_refusal (retry_after d) = true

pub check-refuses :
    (t : Throttle) (key : Text) (now : ℕ)
    → is_refusal (check t key now).1 ≡ refuses t now (map_get t.by_key key)
unfolding check check_as
check-refuses t key now = elim (Option-cases (map_get t.by_key key)) [
  | inl e ↦ ground (arith, e)
  | inr (r, e) ↦ ground (arith, e)
]

refuses-passing :
    (t : Throttle) (now later : ℕ) (o : Option Attempts)
    → now ≤ later
    → refuses t later (passing (λ r. not (is_past t now r)) o) ≡ refuses t later o
refuses-passing t now later none le = refl
refuses-passing t now later (some r) le = ground arith

-- A failure of one key changes nothing for another: it is refused at a later time exactly when it
-- would have been.
pub fail-other :
    (t : Throttle) (key other : Text) (now later : ℕ)
    → IsMap t.by_key
    → text_eq key other ≡ false
    → now ≤ later
    → is_refusal (check (fail t key now) other later).1 ≡ is_refusal (check t other later).1
unfolding fail swept
fail-other t key other now later m e le =
    let put = map_set t.by_key key (counted t now (map_get t.by_key key)) in
    let same : map_get put other ≡ map_get t.by_key other =
      map_get-map_set t.by_key key other (counted t now (map_get t.by_key key)) ∙ ground arith in
    check-refuses (fail t key now) other later
    ∙ elim (Bool-cases (ltb 10000 (length put))) [
      | inr few ↦ rw (few, fail) (ap (refuses t later) same)
      | inl many ↦
          rw (many, fail)
            (ap (refuses t later) (
                map_get-select (λ r. not (is_past t now r)) put other
                  (map_set-IsMap t.by_key key (counted t now (map_get t.by_key key)) m)
                ∙ ap (passing (λ r. not (is_past t now r))) same)
              ∙ refuses-passing t now later (map_get t.by_key other) le)
    ]
    ∙ sym (check-refuses t other later)
