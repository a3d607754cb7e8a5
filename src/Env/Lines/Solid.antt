-- ===== src/Env/Lines/Solid.antt =====
-- Names and values without line ends and white space around them, as the lines of shared/env.mjs
-- have them.
use forthway_command_center.Base.{
  at_code, put_before, ℕ, ◌≡◌, refl, sym, ap, ◌∙◌, subst, ◌⊎◌, inl, inr, Bool, true, false, not,
  ◌||◌, some, [], ◌∷◌, ◌++◌, ◌==◌, any, all, arith, Bool-cases, Text, text_eq, text_eq_iff,
  is_space, trim, trim_start,
}
use mathlib.Core.List.{reverse, reverse-append, reverse-cons, reverse-reverse}
use forthway_command_center.Env.Quote.{
  double_quote, must_hide, needs_quoting, quote, escaped, format_value, escape_code, escape_dollars,
}
use forthway_command_center.Env.RoundTrip.{escaped-cons, put, follows}
use forthway_command_center.Env.Merge.{is_key_rest, is_env_key}
use forthway_command_center.Env.Lines.Split.{add_head, split_lines, after_prefix}
use forthway_command_center.Env.Lines.{unexported}

-- No line ends in a text.
unfoldable pub is_inline : ℕ → Bool
is_inline c = not ((c == 10) || (c == 13))

pub split_lines-inline : (s : Text) → all is_inline s ≡ true → split_lines s ≡ s ∷ []
unfolding split_lines add_head is_inline
split_lines-inline [] h = refl
split_lines-inline (c ∷ s) h = ground (arith, split_lines-inline s)

pub split_lines-append :
    (s t : Text) → all is_inline s ≡ true → split_lines (s ++ (10 ∷ t)) ≡ s ∷ split_lines t
unfolding split_lines add_head is_inline
split_lines-append [] t h = refl
split_lines-append (c ∷ s) t h = ground (arith, split_lines-append s t)

-- A text that neither begins nor ends with white space.
unfoldable pub first_solid : Text → Bool
first_solid [] = false
first_solid (c ∷ s) = not (is_space c)

pub trim_start-solid : (s : Text) → first_solid s ≡ true → trim_start s ≡ s
unfolding first_solid
trim_start-solid [] h = refl
trim_start-solid (c ∷ s) h = ground arith

unfoldable pub IsSolid : Text → Type 0
IsSolid s = (first_solid s ≡ true) × (first_solid (reverse s) ≡ true)

pub trim-IsSolid : (s : Text) → IsSolid s → trim s ≡ s
unfolding IsSolid
trim-IsSolid s h =
    ap (λ t. reverse (trim_start (reverse t))) (trim_start-solid s h.0)
    ∙ ap reverse (trim_start-solid (reverse s) h.1)
    ∙ reverse-reverse s

pub first_solid-append : (s t : Text) → first_solid s ≡ true → first_solid (s ++ t) ≡ true
unfolding first_solid
first_solid-append [] t h = cc
first_solid-append (c ∷ s) t h = h

pub IsSolid-append :
    (s t : Text) → first_solid s ≡ true → first_solid (reverse t) ≡ true → IsSolid (s ++ t)
unfolding IsSolid
IsSolid-append s t h k = (
  first_solid-append s t h,
  subst (λ r. first_solid r ≡ true) (sym (reverse-append s t))
      (first_solid-append (reverse t) (reverse s) k),
)

pub trim_start-first_solid : (s : Text) → (trim_start s ≡ []) ⊎ (first_solid (trim_start s) ≡ true)
unfolding first_solid
trim_start-first_solid [] = inl refl
trim_start-first_solid (c ∷ s) = elim (Bool-cases (is_space c)) [
  | inl e ↦ rw e (trim_start-first_solid s)
  | inr e ↦ rw e (inr (ground arith))
]

pub all-append :
    (p : ℕ → Bool) (s t : Text) → all p s ≡ true → all p t ≡ true → all p (s ++ t) ≡ true
all-append p [] t h k = k
all-append p (c ∷ s) t h k = ground (arith, all-append p s t)

-- A value that is written as it is ends in no white space.
pub plain-last : (v : Text) → needs_quoting v ≡ false → first_solid (reverse v) ≡ true
unfolding needs_quoting first_solid text_eq
plain-last [] h = cc
plain-last (c ∷ v) h =
    let same : c ∷ v ≡ trim (c ∷ v) = (text_eq_iff (c ∷ v) (trim (c ∷ v))).0 (ground arith) in
    let w = reverse (trim_start (c ∷ v)) in
    let back : reverse (c ∷ v) ≡ trim_start w = ap reverse same ∙ reverse-reverse (trim_start w) in
    elim (trim_start-first_solid w) [
      | inl e ↦ cc (same ∙ ap reverse e)
      | inr e ↦ subst (λ r. first_solid r ≡ true) (sym back) e
    ]

pub quote-last : (v : Text) → first_solid (reverse (quote v)) ≡ true
unfolding quote first_solid
quote-last v =
    subst (λ r. first_solid r ≡ true)
      (sym (reverse-append (double_quote ∷ escaped v) (double_quote ∷ []))) refl

pub format_value-last : (v : Text) → first_solid (reverse (format_value v)) ≡ true
unfolding format_value
format_value-last v = elim (Bool-cases (needs_quoting v)) [
  | inl e ↦ rw e (quote-last v)
  | inr e ↦ rw e (plain-last v e)
]

pub put-inline :
    (c : ℕ) (n : Bool) (s : Text) → all is_inline s ≡ true → all is_inline (put c n s) ≡ true
unfolding is_inline
put-inline c n s h = ground arith

pub escaped-inline : (v : Text) → all is_inline (escaped v) ≡ true
unfolding escaped escape_code escape_dollars
escaped-inline [] = refl
escaped-inline (c ∷ v) =
    rw (escaped-cons c v) (put-inline c (follows v) (escaped v) (escaped-inline v))

pub plain-inline : (v : Text) → any must_hide v ≡ false → all is_inline v ≡ true
unfolding is_inline
plain-inline [] h = refl
plain-inline (c ∷ v) h = ground (arith, plain-inline v)

pub format_value-inline : (v : Text) → all is_inline (format_value v) ≡ true
unfolding format_value needs_quoting quote is_inline
format_value-inline v = elim (Bool-cases (needs_quoting v)) [
  | inl e ↦
      rw (e, quote) (all-append is_inline (escaped v) (double_quote ∷ []) (escaped-inline v) refl)
  | inr e ↦ rw e (plain-inline v (ground arith))
]

pub key-all : (k : Text) → is_env_key k ≡ true → all is_key_rest k ≡ true
unfolding is_env_key
key-all [] h = cc
key-all (c ∷ k) h = ground arith

pub key-inline : (k : Text) → all is_key_rest k ≡ true → all is_inline k ≡ true
unfolding is_inline
key-inline [] h = refl
key-inline (c ∷ k) h = ground (arith, key-inline k)

pub key-first : (c : ℕ) (k : Text) → all is_key_rest (c ∷ k) ≡ true → first_solid (c ∷ k) ≡ true
unfolding first_solid
key-first c k h = ground arith

pub key-last :
    (c : ℕ) (k : Text) → all is_key_rest (c ∷ k) ≡ true → first_solid (reverse (c ∷ k)) ≡ true
key-last c [] h = key-first c [] h
key-last c (d ∷ k) h =
    subst (λ r. first_solid r ≡ true) (sym (reverse-cons c (d ∷ k)))
      (first_solid-append (reverse (d ∷ k)) (c ∷ []) (key-last d k (ground arith)))

pub at_code-key :
    (k v : Text) → all is_key_rest k ≡ true → at_code b'=' (k ++ (b'=' ∷ v)) ≡ some (k, v)
unfolding at_code put_before
at_code-key [] v h = refl
at_code-key (c ∷ k) v h = ground (arith, at_code-key k v)

-- What follows a prefix of a line does not begin with white space.
pub after_prefix-key :
    (s p k v : Text)
    → all is_key_rest k ≡ true
    → all (λ c. not (c == b'=')) p ≡ true
    → unexported s (after_prefix p (k ++ (b'=' ∷ v))) ≡ s
unfolding after_prefix unexported
after_prefix-key s [] [] v h n = refl
after_prefix-key s [] (c ∷ k) v h n = ground arith
after_prefix-key s (a ∷ p) [] v h n = ground arith
after_prefix-key s (a ∷ p) (c ∷ k) v h n = ground (arith, after_prefix-key s p k v)
