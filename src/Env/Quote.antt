-- ===== src/Env/Quote.antt =====
-- Quoting a value and reading it back: cleanEnvValue, needsQuoting and quote of shared/env.mjs. The
-- replacements of quote run one after the other, as there.
use forthway_command_center.Base.{
  ℕ, Bool, true, false, not, ◌&&◌, ◌||◌, [], ◌∷◌, ◌++◌, ◌==◌, any, if◌then◌else◌, Text, text_eq,
  trim, is_letter,
}

-- The codes that a quoted value may escape: \ " ' ` n r t f $.
abbrev pub backslash : ℕ
backslash = 92

abbrev pub double_quote : ℕ
double_quote = b'"'

abbrev pub single_quote : ℕ
single_quote = 39

abbrev pub back_quote : ℕ
back_quote = 96

abbrev pub is_escape : ℕ → Bool
is_escape c =
    (c == backslash)
    || (c == double_quote)
    || (c == single_quote)
    || (c == back_quote)
    || (c == b'n')
    || (c == b'r')
    || (c == b't')
    || (c == b'f')
    || (c == b'$')

abbrev pub decode : ℕ → ℕ
decode c =
    if c == b'n'
    then 10
    else if c == b'r'
    then 13
    else if c == b't'
    then 9
    else if c == b'f'
    then 12
    else c

-- `unescapeDouble`, with a backslash pending or not.
unfoldable pub unescape : Bool → Text → Text
unescape false [] = []
unescape true [] = backslash ∷ []
unescape false (c ∷ s) =
    let rest = unescape (c == backslash) s in if c == backslash then rest else c ∷ rest
unescape true (c ∷ s) =
    let rest = unescape false s in if is_escape c then decode c ∷ rest else backslash ∷ c ∷ rest

-- `/(^|[^\\])(\\\\)*\\$/`: an odd number of backslashes at the end.
unfoldable pub ends_escaped : Bool → Text → Bool
ends_escaped odd [] = odd
ends_escaped odd (c ∷ s) = ends_escaped ((c == backslash) && not odd) s

-- The text without its last code, and that code.
unfoldable pub unsnoc : ℕ → Text → Text × ℕ
unsnoc c [] = ([], c)
unsnoc c (d ∷ s) = let (xs, last) = unsnoc d s in (c ∷ xs, last)

abbrev pub is_quote : ℕ → Bool
is_quote c = (c == double_quote) || (c == single_quote) || (c == back_quote)

unfoldable pub unwrap : Text → ℕ → Text → Text
unfolding unescape
unwrap v q inner =
    if ends_escaped false inner
    then v
    else if (q == double_quote) || (q == back_quote)
    then unescape false inner
    else inner

unfoldable pub clean_trimmed : Text → Text
unfolding unwrap
clean_trimmed [] = []
clean_trimmed (q ∷ []) = q ∷ []
clean_trimmed (q ∷ c ∷ s) =
    let (inner, last) = unsnoc c s in
    if is_quote q && (last == q) then unwrap (q ∷ c ∷ s) q inner else q ∷ c ∷ s

-- `cleanEnvValue`
unfoldable pub clean_env_value : Text → Text
clean_env_value v = clean_trimmed (trim v)

-- A backslash before every occurrence of a code, or a letter for it.
unfoldable pub escape_code : ℕ → ℕ → Text → Text
escape_code c e [] = []
escape_code c e (d ∷ s) =
    let rest = escape_code c e s in if d == c then backslash ∷ e ∷ rest else d ∷ rest

-- `[A-Za-z_{]` comes next.
unfoldable pub starts_reference : Text → Bool
starts_reference [] = false
starts_reference (c ∷ s) = is_letter c || (c == b'_') || (c == b'{')

unfoldable pub escape_dollars : Text → Text
unfolding starts_reference
escape_dollars [] = []
escape_dollars (d ∷ s) =
    let rest = escape_dollars s in
    if (d == b'$') && starts_reference s then backslash ∷ d ∷ rest else d ∷ rest

-- The five replacements of `quote`.
unfoldable pub escaped : Text → Text
escaped v = escape_code 10 b'n' (
    escape_code 13 b'r'
      (escape_dollars (escape_code double_quote double_quote (escape_code backslash backslash v))))

unfoldable pub quote : Text → Text
unfolding escaped
quote v = double_quote ∷ (escaped v ++ double_quote ∷ [])

-- `needsQuoting`
abbrev pub must_hide : ℕ → Bool
must_hide c = (c == 10) || (c == 13) || is_quote c || (c == backslash) || (c == b'#')

unfoldable pub needs_quoting : Text → Bool
needs_quoting v = text_eq v [] || not (text_eq v (trim v)) || any must_hide v

-- A value as `formatEnvText` writes it.
unfoldable pub format_value : Text → Text
unfolding quote needs_quoting
format_value v = if needs_quoting v then quote v else v
