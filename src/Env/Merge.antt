-- ===== src/Env/Merge.antt =====
-- renderEnvBlock and mergeEnvFile of shared/env.mjs: the block of a .env file that the panel owns.
pub mod Cut
pub mod Again
use forthway_command_center.Base.{
  ℕ, Bool, true, false, not, ◌&&◌, ◌||◌, Option, none, some, List, [], ◌∷◌, ◌++◌, ◌==◌, all,
  if◌then◌else◌, Text, codes, text_eq, is_letter, is_digit, is_space,
}
use forthway_command_center.Env.Quote.{quote}
use forthway_command_center.Env.Merge.Cut.{cut}

-- `BLOCK_START` and `BLOCK_END`; 8212 is the dash of the first.
abbrev pub start_rest : Text
start_rest =
    codes " >>> forthway command center " ++ (8212 ∷ codes " managed, edited from the panel >>>")

abbrev pub block_start : Text
block_start = b'#' ∷ start_rest

abbrev pub block_end : Text
block_end = b'#' ∷ codes " <<< forthway command center <<<"

abbrev pub is_key_rest : ℕ → Bool
is_key_rest c = is_letter c || is_digit c || (c == b'_')

-- `isEnvKey`
unfoldable pub is_env_key : Text → Bool
is_env_key [] = false
is_env_key (c ∷ k) = (is_letter c || (c == b'_')) && all is_key_rest k

-- `Object.entries`: keys with their values.
abbrev pub Env : Type 0
Env = List (Text × Text)

unfoldable pub env_line : Text → Text → Text
env_line k v = k ++ (b'=' ∷ quote v)

-- The lines of the usable keys, after a first one.
more_lines : Env → Text
more_lines [] = []
more_lines ((k, v) ∷ e) =
    let rest = more_lines e in if is_env_key k then 10 ∷ (env_line k v ++ rest) else rest

unfoldable pub body : Env → Text
unfolding more_lines
body [] = []
body ((k, v) ∷ e) = let rest = body e in if is_env_key k then env_line k v ++ more_lines e else rest

abbrev pub notice : Text
notice = codes "# Anything you write between these markers is replaced on the next deploy."

-- What comes between the two marks.
unfoldable pub between : Env → Text
between e = 10 ∷ (notice ++ (10 ∷ (body e ++ (10 ∷ []))))

-- `renderEnvBlock`
unfoldable pub render_env_block : Env → Text
render_env_block e = block_start ++ (between e ++ block_end)

unfoldable pub trim_cons : ℕ → Text → Text
trim_cons c [] = if is_space c then [] else c ∷ []
trim_cons c (d ∷ s) = c ∷ d ∷ s

-- `replace(/\s*$/, "")`
unfoldable pub trim_end : Text → Text
trim_end [] = []
trim_end (c ∷ s) = trim_cons c (trim_end s)

-- `replace(/^\n/, "")`
unfoldable pub drop_line_end : Text → Text
drop_line_end [] = []
drop_line_end (c ∷ s) = if c == 10 then s else c ∷ s

-- `replace(/\n{2,}$/, "\n")`
unfoldable pub one_line_end : Text → Text
one_line_end [] = []
one_line_end (c ∷ s) =
    let rest = one_line_end s in if (c == 10) && text_eq rest (10 ∷ []) then 10 ∷ [] else c ∷ rest

unfoldable pub added : Text → Text → Text
added [] block = block ++ (10 ∷ [])
added (c ∷ head) block = c ∷ head ++ (10 ∷ 10 ∷ (block ++ (10 ∷ [])))

-- What follows the block: nothing where its end is missing.
unfoldable pub after_end : Option (Text × Text) → Text
after_end none = []
after_end (some (b, a)) = drop_line_end a

unfoldable pub after_block : Text → Text
after_block rest = after_end (cut block_end (block_start ++ rest))

-- The file with a new block, or with none for no variables.
unfoldable pub next_text : Text → Env → Option (Text × Text) → Text
unfolding added
next_text current [] none = current
next_text current (x ∷ e) none = added (trim_end current) (render_env_block (x ∷ e))
next_text current [] (some (before, rest)) = one_line_end before ++ after_block rest
next_text current (x ∷ e) (some (before, rest)) =
    before ++ (render_env_block (x ∷ e) ++ (10 ∷ after_block rest))

unfoldable pub updated : Text → Env → Text
updated current e = next_text current e (cut block_start current)

-- `mergeEnvFile`: none where nothing changes.
unfoldable pub merge_env_file : Text → Env → Option Text
merge_env_file current e =
    if text_eq (updated current e) current then none else some (updated current e)
