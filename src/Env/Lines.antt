-- ===== src/Env/Lines.antt =====
-- parseEnvText, closesWith, formatEnvText and shadowedKeys of shared/env.mjs. The loop over the
-- lines has a value open or not, in place of the loop inside it. Keys stand in the order of their
-- first lines; an assignment to `__proto__` does nothing.
pub mod Split
pub mod Solid
pub mod RoundTrip
pub mod Whole
use forthway_command_center.Base.{
  at_code, ℕ, zero, suc, ◌+◌, ◌-◌, Bool, true, false, not, ◌&&◌, ◌||◌, Option, none, some, List, [],
  ◌∷◌, ◌++◌, ltb, leb, ◌==◌, if◌then◌else◌, select, Text, codes, text_eq, trim, trim_start,
  is_space, map_get, map_set,
}
use forthway_command_center.Env.Quote.{
  is_quote, ends_escaped, unsnoc, clean_env_value, format_value,
}
use forthway_command_center.Env.Merge.{Env, block_start, block_end, is_env_key}
use forthway_command_center.Env.Merge.Cut.{cut}
use forthway_command_center.Env.Lines.Split.{split_lines, after_prefix}

pub data Trouble : Type 0 where
  no_equals : Trouble
  bad_name : Text → Trouble

-- A line that is refused: its number, its text and why.
pub record Refusal : Type 0 where
  pub line : ℕ
  pub text : Text
  pub why : Trouble

pub record Result : Type 0 where
  pub env : Env
  pub errors : List Refusal

-- `closesWith`
unfoldable pub closes_with : Text → ℕ → Bool
closes_with [] q = false
closes_with (c ∷ []) q = false
closes_with (c ∷ d ∷ s) q =
    let (inner, last) = unsnoc d s in (last == q) && not (ends_escaped false inner)

unfoldable pub unexported : Text → Option Text → Text
unexported s none = s
unexported s (some []) = s
unexported s (some (c ∷ r)) = if is_space c then trim_start r else s

-- `replace(/^export\s+/, "")`
unfoldable pub without_export : Text → Text
without_export s = unexported s (after_prefix (codes "export") s)

unfoldable pub set_value : Env → Text → Text → Env
set_value env key value = if text_eq key (codes "__proto__") then env else map_set env key value

unfoldable pub refuse : Result → ℕ → Text → Trouble → Result
refuse out n bare why = record out {
  errors = out.errors ++ (record { line = n; text = bare; why = why } ∷ []);
}

-- The end of a value, on line `n`.
unfoldable pub end_value : Result → ℕ → Text → Text → Text → Result
end_value out n bare key raw =
    if is_env_key key
    then record out { env = set_value out.env key (clean_env_value raw) }
    else refuse out n bare (bad_name key)

-- A value whose quote is still open.
pub record Open : Type 0 where
  pub bare : Text
  pub key : Text
  pub opener : ℕ
  pub acc : Text

unfoldable pub opener_of : Text → Option ℕ
opener_of [] = none
opener_of (c ∷ s) = if is_quote c then some c else none

-- What a line does: it is finished, or a value is open.
unfoldable pub begin_value : Result → ℕ → Text → Text → Text → Option ℕ → Result × Option Open
begin_value out n bare key raw none = (end_value out n bare key raw, none)
begin_value out n bare key raw (some q) =
    if closes_with (trim raw) q
    then (end_value out n bare key (trim raw), none)
    else (out, some (record { bare = bare; key = key; opener = q; acc = trim raw }))

unfoldable pub read_entry : Result → ℕ → Text → Option (Text × Text) → Result × Option Open
read_entry out n bare none = (refuse out n bare no_equals, none)
read_entry out n bare (some ([], raw)) = (refuse out n bare no_equals, none)
read_entry out n bare (some (c ∷ k, raw)) =
    begin_value out n bare (trim (c ∷ k)) raw (opener_of (trim raw))

unfoldable pub read_bare : Result → ℕ → Text → Result × Option Open
read_bare out n [] = (out, none)
read_bare out n (c ∷ s) =
    if c == b'#'
    then (out, none)
    else read_entry out n (c ∷ s) (at_code b'=' (without_export (c ∷ s)))

unfoldable pub continue_value : Result → ℕ → Open → Text → Result × Option Open
continue_value out n o l =
    let acc = o.acc ++ (10 ∷ l) in
    if closes_with acc o.opener
    then (end_value out n o.bare o.key acc, none)
    else (out, some (record o { acc = acc }))

unfoldable pub read_line : Result × Option Open → ℕ → Text → Result × Option Open
read_line (out, none) n l = read_bare out n (trim l)
read_line (out, some o) n l = continue_value out n o l

-- The lines from number `n` on; a value that is open at the end is taken as it is.
unfoldable pub read_lines : Result × Option Open → ℕ → List Text → Result
read_lines (out, none) n [] = out
read_lines (out, some o) n [] = end_value out (n - 1) o.bare o.key o.acc
read_lines st n (l ∷ ls) = read_lines (read_line st n l) (n + 1) ls

unfoldable pub parse_env_text : Text → Result
parse_env_text s = read_lines (record { env = []; errors = [] }, none) 1 (split_lines s)

unfoldable pub entry_line : Text → Text → Text
entry_line k v = k ++ (b'=' ∷ format_value v)

-- `formatEnvText`
unfoldable pub format_env_text : Env → Text
format_env_text [] = []
format_env_text ((k, v) ∷ []) = entry_line k v
format_env_text ((k, v) ∷ x ∷ e) = entry_line k v ++ (10 ∷ format_env_text (x ∷ e))

after_mark : Option (Text × Text) → Text
after_mark none = []
after_mark (some (b, a)) = a

-- The file without the block.
unfoldable pub outside : Text → Option (Text × Text) → Text
unfolding after_mark
outside current none = current
outside current (some (b, rest)) = b ++ after_mark (cut block_end (block_start ++ rest))

is_theirs : Env → Text × Text → Bool
is_theirs theirs x = elim (map_get theirs x.0) [ none ↦ false | some v ↦ true ]

-- `shadowedKeys`, with the values beside the keys.
unfoldable pub shadowed : Text → Env → Env
unfolding is_theirs
shadowed current e =
    select (is_theirs (parse_env_text (outside current (cut block_start current))).env) e
