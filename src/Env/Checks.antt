-- ===== src/Env/Checks.antt =====
-- The round trips of a value at a concrete one: two backslashes, a quote and a reference.
use forthway_command_center.Env.Lines.{parse_env_text, format_env_text}
use forthway_command_center.Env.Lines.Whole.{is_usable, parse_env_text-format_env_text}
use forthway_command_center.Env.Merge.{
  Env, block_end, between, body, env_line, is_env_key, updated, next_text, added, trim_end,
  trim_cons, after_block, after_end, drop_line_end, render_env_block,
}
use forthway_command_center.Env.Merge.Cut.{cut, starts, after_first}
use forthway_command_center.Env.Merge.Again.{IsClosed, updated-updated}
use forthway_command_center.Base.{◌≡◌, refl, true, false, all, IsMap, [], ◌∷◌, Text, codes, text_eq}
use forthway_command_center.Env.Quote.{quote, escape_code, escape_dollars}

abbrev password : Text
password = codes "a\\\\\"$b"

abbrev hand_written : Text
hand_written = codes "PORT=80"

abbrev one_value : Env
one_value = (codes "A", codes "1") ∷ []

one_value-IsClosed : IsClosed one_value
unfolding IsClosed cut starts after_first between body env_line is_env_key quote escape_code
    escape_dollars
one_value-IsClosed = refl

updated-updated_example :
    updated (updated hand_written one_value) ((codes "B", codes "2") ∷ [])
    ≡ updated hand_written ((codes "B", codes "2") ∷ [])
updated-updated_example =
    updated-updated hand_written (codes "A", codes "1") (codes "B", codes "2") [] []
      one_value-IsClosed

-- A value that holds the mark at the end of the block.
abbrev marked_value : Env
marked_value = (codes "A", block_end) ∷ []

marked_value_changes :
    text_eq (updated (updated [] marked_value) marked_value) (updated [] marked_value) ≡ false
unfolding updated text_eq next_text added trim_end trim_cons after_block after_end drop_line_end
    render_env_block cut starts after_first between body env_line is_env_key quote escape_code
    escape_dollars
marked_value_changes = refl

-- A value over two lines with a quote, and one with spaces around it.
abbrev two_values : Env
two_values = (codes "KEY", 34 ∷ 10 ∷ codes "b") ∷ (codes "PAD", codes " x ") ∷ []

two_values-IsMap : IsMap two_values
unfolding text_eq
two_values-IsMap = (refl, (refl, tt))

two_values_pass : all is_usable two_values ≡ true
unfolding is_usable is_env_key text_eq
two_values_pass = refl

parse_env_text-format_env_text_example :
    parse_env_text (format_env_text two_values) ≡ record { env = two_values; errors = [] }
parse_env_text-format_env_text_example =
    parse_env_text-format_env_text two_values two_values-IsMap two_values_pass
