-- ===== src/Env/RoundTrip.antt =====
-- A value that is quoted is read back as it was, shared/env.mjs.
use forthway_command_center.Base.{
  ℕ, ◌≡◌, refl, sym, ap, ◌∙◌, inl, inr, Bool, false, ◌&&◌, [], ◌∷◌, ◌++◌, ◌==◌, any, arith,
  if◌then◌else◌, Text, text_eq_iff, trim, trim_start, Bool-cases,
}
use mathlib.Core.List.{reverse, reverse-cons, reverse-append, reverse-reverse}
use forthway_command_center.Env.Quote.{
  backslash, double_quote, unescape, ends_escaped, unsnoc, unwrap, clean_trimmed, clean_env_value,
  escape_code, escape_dollars, starts_reference, escaped, quote, must_hide, needs_quoting,
  format_value,
}

-- What one code of a value becomes. `next` tells whether a reference could follow.
abbrev pub put : ℕ → Bool → Text → Text
put c next s =
    if c == backslash
    then backslash ∷ backslash ∷ s
    else if c == double_quote
    then backslash ∷ double_quote ∷ s
    else if (c == b'$') && next
    then backslash ∷ c ∷ s
    else if c == 13
    then backslash ∷ b'r' ∷ s
    else if c == 10
    then backslash ∷ b'n' ∷ s
    else c ∷ s

abbrev pub follows : Text → Bool
follows v =
    starts_reference (escape_code double_quote double_quote (escape_code backslash backslash v))

pub escaped-cons : (c : ℕ) (v : Text) → escaped (c ∷ v) ≡ put c (follows v) (escaped v)
unfolding escaped escape_code escape_dollars
escaped-cons c v = elim (Bool-cases (c == backslash)) [
  | inl e ↦ (let same : c ≡ 92 = ground arith in rw same refl)
  | inr n1 ↦ elim (Bool-cases (c == double_quote)) [
    | inl e ↦ (let same : c ≡ 34 = ground arith in rw same refl)
    | inr n2 ↦ elim (Bool-cases (c == b'$')) [
      | inl e ↦
          let same : c ≡ 36 = ground arith in
          rw same (elim (Bool-cases (follows v)) [ inl f ↦ rw f refl | inr f ↦ rw f refl ])
      | inr n3 ↦ elim (Bool-cases (c == 13)) [
        | inl e ↦ (let same : c ≡ 13 = ground arith in rw same refl)
        | inr n4 ↦ elim (Bool-cases (c == 10)) [
          | inl e ↦ (let same : c ≡ 10 = ground arith in rw same refl)
          | inr n5 ↦ rw (n1, n2, n3, n4, n5) refl
        ]
      ]
    ]
  ]
]

unescape-put :
    (c : ℕ) (next : Bool) (s : Text) → unescape false (put c next s) ≡ c ∷ unescape false s
unfolding unescape
unescape-put c next s = ground arith

ends_escaped-put :
    (c : ℕ) (next : Bool) (s : Text) → ends_escaped false (put c next s) ≡ ends_escaped false s
unfolding ends_escaped
ends_escaped-put c next s = ground arith

unescape-escaped : (v : Text) → unescape false (escaped v) ≡ v
unfolding unescape escaped escape_code escape_dollars
unescape-escaped [] = refl
unescape-escaped (c ∷ v) =
    rw (escaped-cons c v)
      (unescape-put c (follows v) (escaped v) ∙ ap (λ s. c ∷ s) (unescape-escaped v))

pub ends_escaped-escaped : (v : Text) → ends_escaped false (escaped v) ≡ false
unfolding ends_escaped escaped escape_code escape_dollars
ends_escaped-escaped [] = refl
ends_escaped-escaped (c ∷ v) =
    rw (escaped-cons c v) (ends_escaped-put c (follows v) (escaped v) ∙ ends_escaped-escaped v)

pub unsnoc-append : (c : ℕ) (xs : Text) (d : ℕ) → unsnoc c (xs ++ d ∷ []) ≡ (c ∷ xs, d)
unfolding unsnoc
unsnoc-append c [] d = refl
unsnoc-append c (x ∷ xs) d = rw (unsnoc-append x xs d) refl

-- A text between two double quotes keeps them when it is trimmed.
pub trim-quoted :
    (xs : Text)
    → trim (double_quote ∷ (xs ++ double_quote ∷ [])) ≡ double_quote ∷ (xs ++ double_quote ∷ [])
trim-quoted xs =
    let w : Text = double_quote ∷ (xs ++ double_quote ∷ []) in
    let e : reverse w ≡ double_quote ∷ (reverse xs ++ double_quote ∷ []) =
      reverse-cons double_quote (xs ++ double_quote ∷ [])
      ∙ ap (λ s. s ++ double_quote ∷ []) (reverse-append xs (double_quote ∷ [])) in
    ap (λ s. reverse (trim_start s)) e ∙ ap reverse (sym e) ∙ reverse-reverse w

clean_trimmed-quoted :
    (xs : Text)
    → ends_escaped false xs ≡ false
    → clean_trimmed (double_quote ∷ (xs ++ double_quote ∷ [])) ≡ unescape false xs
unfolding clean_trimmed unwrap unsnoc
clean_trimmed-quoted [] h = rw h refl
clean_trimmed-quoted (x ∷ xs) h = rw (unsnoc-append x xs double_quote, h) refl

-- Whatever a value holds, reading it back from its quoted form gives the value.
pub clean_env_value-quote : (v : Text) → clean_env_value (quote v) ≡ v
unfolding clean_env_value quote
clean_env_value-quote v =
    ap clean_trimmed (trim-quoted (escaped v))
    ∙ clean_trimmed-quoted (escaped v) (ends_escaped-escaped v)
    ∙ unescape-escaped v

-- A text that does not begin with a quote is not unwrapped.
clean_trimmed-plain : (v : Text) → any must_hide v ≡ false → clean_trimmed v ≡ v
unfolding clean_trimmed
clean_trimmed-plain [] h = refl
clean_trimmed-plain (q ∷ []) h = refl
clean_trimmed-plain (q ∷ c ∷ s) h = ground arith

needs_quoting-plain : (v : Text) → needs_quoting v ≡ false → clean_env_value v ≡ v
unfolding needs_quoting clean_env_value
needs_quoting-plain v e =
    let same : v ≡ trim v = (text_eq_iff v (trim v)).0 (ground arith) in
    ap clean_trimmed (sym same) ∙ clean_trimmed-plain v (ground arith)

-- A value of the settings pane reads back from its line as it was, quoted or not.
pub clean_env_value-format_value : (v : Text) → clean_env_value (format_value v) ≡ v
unfolding format_value
clean_env_value-format_value v = elim (Bool-cases (needs_quoting v)) [
  | inl e ↦ rw e (clean_env_value-quote v)
  | inr e ↦ rw e (needs_quoting-plain v e)
]
