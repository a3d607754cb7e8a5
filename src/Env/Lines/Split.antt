-- ===== src/Env/Lines/Split.antt =====
-- The regular expressions and searches of parseEnvText, shared/env.mjs.
use forthway_command_center.Base.{
  ℕ, Bool, false, ◌&&◌, Option, none, some, List, [], ◌∷◌, ◌==◌, if◌then◌else◌, Text,
}

unfoldable pub add_head : ℕ → List Text → List Text
add_head c [] = (c ∷ []) ∷ []
add_head c (l ∷ ls) = (c ∷ l) ∷ ls

unfoldable pub is_line_feed : Text → Bool
is_line_feed [] = false
is_line_feed (c ∷ s) = c == 10

-- `split(/\r?\n/)`
unfoldable pub split_lines : Text → List Text
split_lines [] = [] ∷ []
split_lines (c ∷ s) =
    let rest = split_lines s in
    if c == 10 then [] ∷ rest else if (c == 13) && is_line_feed s then rest else add_head c rest

-- What follows a prefix.
unfoldable pub after_prefix : Text → Text → Option Text
after_prefix [] s = some s
after_prefix (a ∷ p) [] = none
after_prefix (a ∷ p) (b ∷ s) = let rest = after_prefix p s in if a == b then rest else none
