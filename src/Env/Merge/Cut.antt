-- ===== src/Env/Merge/Cut.antt =====
-- The first place of a text in another, as indexOf and slice find it in shared/env.mjs.
use forthway_command_center.Base.{
  ℕ, ◌≡◌, refl, sym, ap, ◌∙◌, subst, inl, inr, Bool, true, false, ◌&&◌, Option, none, some, [], ◌∷◌,
  ◌++◌, ◌==◌, any, if◌then◌else◌, arith, Bool-cases, ◌⊎◌, Text,
}
use mathlib.Core.Option.{some_inj}

-- `startsWith`
unfoldable pub starts : Text → Text → Bool
starts [] s = true
starts (a ∷ p) [] = false
starts (a ∷ p) (b ∷ s) = (a == b) && starts p s

abbrev pub drop_text : Text → Text → Text
drop_text [] s = s
drop_text (a ∷ p) [] = []
drop_text (a ∷ p) (b ∷ s) = drop_text p s

unfoldable pub after_first : ℕ → Option (Text × Text) → Option (Text × Text)
after_first c none = none
after_first c (some (b, a)) = some (c ∷ b, a)

-- What comes before the first occurrence of `p`, which is not empty, and what comes after it.
unfoldable pub cut : Text → Text → Option (Text × Text)
cut p [] = none
cut p (c ∷ s) =
    let rest = after_first c (cut p s) in
    if starts p (c ∷ s) then some ([], drop_text p (c ∷ s)) else rest

unfoldable pub prepend : Text → Option (Text × Text) → Option (Text × Text)
prepend [] o = o
prepend (c ∷ u) o = after_first c (prepend u o)

abbrev has_code : ℕ → Text → Bool
has_code x t = any (λ c. c == x) t

-- A text that reaches into what is appended has its first code.
reaches :
    (x : ℕ) (p u w : Text)
    → starts p (u ++ (x ∷ w)) ≡ true
    → starts p u ≡ false
    → has_code x p ≡ true
unfolding starts
reaches x [] u w h k = cc
reaches x (a ∷ p) [] w h k = ground arith
reaches x (a ∷ p) (b ∷ u) w h k = ground (arith, reaches x p u w)

cut-nil : (p : Text) → cut p [] ≡ none
unfolding cut
cut-nil p = refl

-- An occurrence at the beginning, or further on, or none.
cut-here :
    (p : Text) (c : ℕ) (u : Text)
    → starts p (c ∷ u) ≡ true
    → cut p (c ∷ u) ≡ some ([], drop_text p (c ∷ u))
unfolding cut
cut-here p c u h = rw h refl

cut-later :
    (p : Text) (c : ℕ) (u : Text)
    → starts p (c ∷ u) ≡ false
    → cut p (c ∷ u) ≡ after_first c (cut p u)
unfolding cut
cut-later p c u h = rw h refl

after_first-none : (c : ℕ) (o : Option (Text × Text)) → after_first c o ≡ none → o ≡ none
unfolding after_first
after_first-none c none h = refl
after_first-none c (some x) h = cc

cut-cons-none :
    (p : Text) (c : ℕ) (u : Text)
    → cut p (c ∷ u) ≡ none
    → (starts p (c ∷ u) ≡ false) × (cut p u ≡ none)
cut-cons-none p c u h = elim (Bool-cases (starts p (c ∷ u))) [
  | inl s ↦ cc (cut-here p c u s)
  | inr s ↦ (s, after_first-none c (cut p u) (sym (cut-later p c u s) ∙ h))
]

not_across :
    (x h c : ℕ) (t u w : Text)
    → has_code x t ≡ false
    → starts (h ∷ t) (c ∷ u) ≡ false
    → starts (h ∷ t) (c ∷ u ++ (x ∷ w)) ≡ false
unfolding starts
not_across x h c t u w n k = ground (arith, reaches x t u w)

-- Where a text has no occurrence and none begins in it, the first one is in what is appended.
pub cut-append :
    (x h : ℕ) (t u w : Text)
    → has_code x t ≡ false
    → cut (h ∷ t) u ≡ none
    → cut (h ∷ t) (u ++ (x ∷ w)) ≡ prepend u (cut (h ∷ t) (x ∷ w))
unfolding prepend
cut-append x h t [] w n k = refl
cut-append x h t (c ∷ u) w n k =
    let both = cut-cons-none (h ∷ t) c u k in
    cut-later (h ∷ t) c (u ++ (x ∷ w)) (not_across x h c t u w n both.0)
    ∙ ap (after_first c) (cut-append x h t u w n both.1)

starts_self : (p w : Text) → starts p (p ++ w) ≡ true
unfolding starts
starts_self [] w = refl
starts_self (a ∷ p) w = ground (arith, starts_self p w)

drop_text_self : (p w : Text) → drop_text p (p ++ w) ≡ w
drop_text_self [] w = refl
drop_text_self (a ∷ p) w = drop_text_self p w

prepend-some : (u a : Text) → prepend u (some ([], a)) ≡ some (u, a)
unfolding prepend after_first
prepend-some [] a = refl
prepend-some (c ∷ u) a = rw (prepend-some u a) refl

-- After a text without an occurrence comes the first one.
pub cut-found :
    (h : ℕ) (t u a : Text)
    → has_code h t ≡ false
    → cut (h ∷ t) u ≡ none
    → cut (h ∷ t) (u ++ (h ∷ t ++ a)) ≡ some (u, a)
cut-found h t u a n k =
    cut-append h h t u (t ++ a) n k
    ∙ ap (prepend u) (
        cut-here (h ∷ t) h (t ++ a) (starts_self (h ∷ t) a)
        ∙ ap (λ x. some ([], x)) (drop_text_self (h ∷ t) a))
    ∙ prepend-some u a

starts-append : (p u w : Text) → starts p u ≡ true → starts p (u ++ w) ≡ true
unfolding starts
starts-append [] u w h = refl
starts-append (a ∷ p) [] w h = cc
starts-append (a ∷ p) (b ∷ u) w h = ground (arith, starts-append p u w)

-- A beginning of a text without an occurrence has none.
pub cut-beginning : (p u w : Text) → cut p (u ++ w) ≡ none → cut p u ≡ none
unfolding after_first
cut-beginning p [] w h = cut-nil p
cut-beginning p (c ∷ u) w h =
    let both = cut-cons-none p c (u ++ w) h in
    elim (Bool-cases (starts p (c ∷ u))) [
      | inl s ↦ cc (starts-append p (c ∷ u) w s)
      | inr s ↦ cut-later p c u s ∙ ap (after_first c) (cut-beginning p u w both.1)
    ]

after_first-some :
    (c : ℕ) (o : Option (Text × Text)) (x : Text × Text)
    → after_first c o ≡ some x
    → (y : Text × Text) × (o ≡ some y) × (x ≡ (c ∷ y.0, y.1))
unfolding after_first
after_first-some c none x h = cc
after_first-some c (some y) x h = (y, refl, sym (some_inj.0 h))

cut-cons-some :
    (p : Text) (c : ℕ) (s : Text) (x : Text × Text)
    → cut p (c ∷ s) ≡ some x
    → (x.0 ≡ [])
      ⊎ ((starts p (c ∷ s) ≡ false) × (y : Text × Text) × (cut p s ≡ some y) × (x ≡ (c ∷ y.0, y.1)))
cut-cons-some p c s x h = elim (Bool-cases (starts p (c ∷ s))) [
  | inl k ↦ inl (sym (ap (λ y. y.0) (some_inj.0 (sym (cut-here p c s k) ∙ h))))
  | inr k ↦
      (let (y, e, f) = after_first-some c (cut p s) x (sym (cut-later p c s k) ∙ h) in
        inr (k, y, e, f))
]

not_earlier :
    (p : Text) (c : ℕ) (s b w : Text)
    → starts p (c ∷ s) ≡ false
    → s ≡ b ++ w
    → cut p b ≡ none
    → cut p (c ∷ b) ≡ none
unfolding after_first
not_earlier p c s b w k g n = elim (Bool-cases (starts p (c ∷ b))) [
  | inl j ↦ cc (starts-append p (c ∷ b) w j)
  | inr j ↦ cut-later p c b j ∙ ap (after_first c) n
]

-- What is cut off is a beginning.
pub cut-splits : (p s : Text) (x : Text × Text) → cut p s ≡ some x → (w : Text) × (s ≡ x.0 ++ w)
cut-splits p [] x h = cc (cut-nil p)
cut-splits p (c ∷ s) x h = elim (cut-cons-some p c s x h) [
  | inl e ↦ (c ∷ s, rw e refl)
  | inr (k, y, e, f) ↦
      let (w, g) = cut-splits p s y e in (w, ap (λ t. c ∷ t) g ∙ ap (λ z. z.0 ++ w) (sym f))
]

-- What comes before the first occurrence has none.
pub cut-before : (p s : Text) (x : Text × Text) → cut p s ≡ some x → cut p x.0 ≡ none
cut-before p [] x h = cc (cut-nil p)
cut-before p (c ∷ s) x h = elim (cut-cons-some p c s x h) [
  | inl e ↦ subst (λ t. cut p t ≡ none) (sym e) (cut-nil p)
  | inr (k, y, e, f) ↦
      let (w, g) = cut-splits p s y e in
      subst (λ z. cut p z.0 ≡ none) (sym f) (not_earlier p c s y.0 w k g (cut-before p s y e))
]
