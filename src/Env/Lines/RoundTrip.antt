-- ===== src/Env/Lines/RoundTrip.antt =====
-- What formatEnvText writes, parseEnvText reads, shared/env.mjs.
use forthway_command_center.Base.{
  at_code, ℕ, ◌≡◌, refl, sym, ap, ◌∙◌, subst, inl, inr, true, false, none, some, [], ◌∷◌, ◌++◌,
  ◌==◌, any, all, arith, Bool-cases, Text, codes, text_eq_iff, trim,
}
use mathlib.Core.List.{append_assoc}
use forthway_command_center.Env.Quote.{
  double_quote, must_hide, needs_quoting, quote, escaped, format_value, ends_escaped, unsnoc,
}
use forthway_command_center.Env.RoundTrip.{trim-quoted, ends_escaped-escaped, unsnoc-append}
use forthway_command_center.Env.Merge.{is_key_rest}
use forthway_command_center.Env.Lines.Split.{}
use forthway_command_center.Env.Lines.{
  Result, closes_with, without_export, end_value, opener_of, begin_value, read_entry, read_bare,
  entry_line,
}
use forthway_command_center.Env.Lines.Solid.{
  is_inline, IsSolid, trim-IsSolid, first_solid-append, IsSolid-append, all-append,
  format_value-last, format_value-inline, key-inline, key-first, key-last, at_code-key,
  after_prefix-key,
}

closes-quoted :
    (xs : Text)
    → ends_escaped false xs ≡ false
    → closes_with (double_quote ∷ (xs ++ double_quote ∷ [])) double_quote ≡ true
unfolding closes_with unsnoc
closes-quoted [] h = rw h refl
closes-quoted (x ∷ xs) h = rw (unsnoc-append x xs double_quote, h) refl

quote-closes : (v : Text) → closes_with (quote v) double_quote ≡ true
unfolding quote
quote-closes v = closes-quoted (escaped v) (ends_escaped-escaped v)

plain-opener : (v : Text) → any must_hide v ≡ false → opener_of v ≡ none
unfolding opener_of
plain-opener [] h = refl
plain-opener (c ∷ v) h = ground arith

trim-quote : (v : Text) → trim (quote v) ≡ quote v
unfolding quote
trim-quote v = trim-quoted (escaped v)

quote-opener : (v : Text) → opener_of (quote v) ≡ some double_quote
unfolding quote opener_of
quote-opener v = refl

plain-any : (v : Text) → needs_quoting v ≡ false → any must_hide v ≡ false
unfolding needs_quoting
plain-any v e = ground arith

plain-trim : (v : Text) → needs_quoting v ≡ false → trim v ≡ v
unfolding needs_quoting
plain-trim v e = sym ((text_eq_iff v (trim v)).0 (ground arith))

begin_value-quote :
    (out : Result) (n : ℕ) (bare k v : Text)
    → begin_value out n bare k (quote v) (opener_of (trim (quote v)))
      ≡ (end_value out n bare k (quote v), none)
unfolding begin_value
begin_value-quote out n bare k v =
    ap (begin_value out n bare k (quote v)) (ap opener_of (trim-quote v) ∙ quote-opener v)
    ∙ rw (trim-quote v, quote-closes v) refl

begin_value-plain :
    (out : Result) (n : ℕ) (bare k v : Text)
    → needs_quoting v ≡ false
    → begin_value out n bare k v (opener_of (trim v)) ≡ (end_value out n bare k v, none)
unfolding begin_value
begin_value-plain out n bare k v e =
    ap (begin_value out n bare k v) (ap opener_of (plain-trim v e) ∙ plain-opener v (plain-any v e))

-- The value of a line is closed on the line.
begin_value-format :
    (out : Result) (n : ℕ) (bare k v : Text)
    → begin_value out n bare k (format_value v) (opener_of (trim (format_value v)))
      ≡ (end_value out n bare k (format_value v), none)
unfolding format_value
begin_value-format out n bare k v = elim (Bool-cases (needs_quoting v)) [
  | inl e ↦ rw e (begin_value-quote out n bare k v)
  | inr e ↦ rw e (begin_value-plain out n bare k v e)
]

not_a_comment :
    (out : Result) (n c : ℕ) (s : Text)
    → (c == b'#') ≡ false
    → read_bare out n (c ∷ s) ≡ read_entry out n (c ∷ s) (at_code b'=' (without_export (c ∷ s)))
unfolding read_bare
not_a_comment out n c s h = rw h refl

named_entry :
    (out : Result) (n : ℕ) (line : Text) (c : ℕ) (k raw : Text)
    → trim (c ∷ k) ≡ c ∷ k
    → read_entry out n line (some (c ∷ k, raw))
      ≡ begin_value out n line (c ∷ k) raw (opener_of (trim raw))
unfolding read_entry
named_entry out n line c k raw e = ap (λ t. begin_value out n line t raw (opener_of (trim raw))) e

key-IsSolid : (c : ℕ) (k : Text) → all is_key_rest (c ∷ k) ≡ true → IsSolid (c ∷ k)
unfolding IsSolid
key-IsSolid c k h = (key-first c k h, key-last c k h)

-- An entry of a usable key is read from its line.
pub read_bare-entry :
    (out : Result) (n : ℕ) (c : ℕ) (k v : Text)
    → all is_key_rest (c ∷ k) ≡ true
    → read_bare out n (entry_line (c ∷ k) v)
      ≡ (end_value out n (entry_line (c ∷ k) v) (c ∷ k) (format_value v), none)
unfolding entry_line without_export
read_bare-entry out n c k v h =
    let line = c ∷ k ++ (b'=' ∷ format_value v) in
    not_a_comment out n c (k ++ (b'=' ∷ format_value v)) (ground arith)
    ∙ ap (λ s. read_entry out n line (at_code b'=' s))
        (after_prefix-key line (codes "export") (c ∷ k) (format_value v) h refl)
    ∙ ap (read_entry out n line) (at_code-key (c ∷ k) (format_value v) h)
    ∙ named_entry out n line c k (format_value v) (trim-IsSolid (c ∷ k) (key-IsSolid c k h))
    ∙ begin_value-format out n line (c ∷ k) v

pub line-IsSolid :
    (c : ℕ) (k v : Text) → all is_key_rest (c ∷ k) ≡ true → IsSolid (entry_line (c ∷ k) v)
unfolding entry_line
line-IsSolid c k v h = subst IsSolid (append_assoc (c ∷ k) (b'=' ∷ []) (format_value v)) (
    IsSolid-append (c ∷ k ++ (b'=' ∷ [])) (format_value v)
      (first_solid-append (c ∷ k) (b'=' ∷ []) (key-first c k h)) (format_value-last v))

pub line-inline : (k v : Text) → all is_key_rest k ≡ true → all is_inline (entry_line k v) ≡ true
unfolding entry_line is_inline
line-inline k v h =
    all-append is_inline k (b'=' ∷ format_value v) (key-inline k h) (format_value-inline v)
