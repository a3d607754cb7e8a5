-- ===== src/Env/Lines/Whole.antt =====
-- The settings of a website come back from the text they are shown in, shared/env.mjs.
use forthway_command_center.Base.{
  ℕ, ◌+◌, ◌≡◌, refl, ap, ◌∙◌, Bool, true, false, not, ◌&&◌, none, [], ◌∷◌, ◌++◌, all, arith, Text,
  codes, text_eq, text_eq-sym, map_set, lacks, IsMap,
}
use mathlib.Core.List.{append_assoc}
use forthway_command_center.Env.Quote.{format_value}
use forthway_command_center.Env.RoundTrip.{clean_env_value-format_value}
use forthway_command_center.Env.Merge.{Env, is_env_key, is_key_rest}
use forthway_command_center.Env.Lines.Split.{split_lines}
use forthway_command_center.Env.Lines.{
  Result, set_value, end_value, read_bare, read_line, read_lines, parse_env_text, entry_line,
  format_env_text,
}
use forthway_command_center.Env.Lines.Solid.{
  key-all, trim-IsSolid, split_lines-inline, split_lines-append,
}
use forthway_command_center.Env.Lines.RoundTrip.{line-IsSolid, line-inline, read_bare-entry}

-- A name that a variable can have, other than that of the prototype of an object.
unfoldable pub is_usable : Text × Text → Bool
is_usable x = is_env_key x.0 && not (text_eq x.0 (codes "__proto__"))

abbrev read_so_far : Env → Result
read_so_far acc = record { env = acc; errors = [] }

map_set-new : (m : Env) (k v : Text) → lacks k m ≡ true → map_set m k v ≡ m ++ ((k, v) ∷ [])
unfolding map_set
map_set-new [] k v h = refl
map_set-new ((j, b) ∷ m) k v h = ground (arith, map_set-new m k v)

end_value-usable :
    (acc : Env) (n : ℕ) (bare k v : Text)
    → is_usable (k, v) ≡ true
    → lacks k acc ≡ true
    → end_value (read_so_far acc) n bare k (format_value v) ≡ read_so_far (acc ++ ((k, v) ∷ []))
unfolding end_value is_usable set_value
end_value-usable acc n bare k v u h =
    let key : is_env_key k ≡ true = ground arith in
    let other : text_eq k (codes "__proto__") ≡ false = ground arith in
    rw (key, other, clean_env_value-format_value v, map_set-new acc k v h) refl

read_line-entry :
    (acc : Env) (n : ℕ) (k v : Text)
    → is_usable (k, v) ≡ true
    → lacks k acc ≡ true
    → read_line (read_so_far acc, none) n (entry_line k v)
      ≡ (read_so_far (acc ++ ((k, v) ∷ [])), none)
unfolding read_line is_usable is_env_key
read_line-entry acc n [] v u h = cc
read_line-entry acc n (c ∷ k) v u h =
    let key = key-all (c ∷ k) (ground arith) in
    ap (read_bare (read_so_far acc) n)
      (trim-IsSolid (entry_line (c ∷ k) v) (line-IsSolid c k v key))
    ∙ read_bare-entry (read_so_far acc) n c k v key
    ∙ ap (λ r. (r, none)) (end_value-usable acc n (entry_line (c ∷ k) v) (c ∷ k) v u h)

usable-line : (k v : Text) → is_usable (k, v) ≡ true → all is_key_rest k ≡ true
unfolding is_usable
usable-line k v u = key-all k (ground arith)

-- None of the entries stands in a list.
abbrev are_new : Env → Env → Bool
are_new acc e = all (λ x. lacks x.0 acc) e

lacks-append :
    (m : Env) (k j v : Text)
    → lacks k m ≡ true
    → text_eq j k ≡ false
    → lacks k (m ++ ((j, v) ∷ [])) ≡ true
lacks-append [] k j v h n = ground arith
lacks-append ((i, b) ∷ m) k j v h n = ground (arith, lacks-append m k j v)

are_new-append :
    (acc e : Env) (k v : Text)
    → are_new acc e ≡ true
    → lacks k e ≡ true
    → are_new (acc ++ ((k, v) ∷ [])) e ≡ true
are_new-append acc [] k v h n = refl
are_new-append acc ((j, b) ∷ e) k v h n =
    ground (arith, are_new-append acc e k v, lacks-append acc j k v, text_eq-sym k j)

read_lines-entries :
    (acc : Env) (n : ℕ) (x : Text × Text) (e : Env)
    → IsMap (x ∷ e)
    → all is_usable (x ∷ e) ≡ true
    → are_new acc (x ∷ e) ≡ true
    → read_lines (read_so_far acc, none) n (split_lines (format_env_text (x ∷ e)))
      ≡ read_so_far (acc ++ (x ∷ e))
unfolding format_env_text read_lines
read_lines-entries acc n (k, v) [] m u w =
    let line = entry_line k v in
    ap (read_lines (read_so_far acc, none) n)
      (split_lines-inline line (line-inline k v (usable-line k v (ground arith))))
    ∙ ap (λ st. read_lines st (n + 1) []) (read_line-entry acc n k v (ground arith) (ground arith))
read_lines-entries acc n (k, v) (x ∷ e) m u w =
    let line = entry_line k v in
    let rest = format_env_text (x ∷ e) in
    ap (read_lines (read_so_far acc, none) n)
      (split_lines-append line rest (line-inline k v (usable-line k v (ground arith))))
    ∙ ap (λ st. read_lines st (n + 1) (split_lines rest))
        (read_line-entry acc n k v (ground arith) (ground arith))
    ∙ read_lines-entries (acc ++ ((k, v) ∷ [])) (n + 1) x e m.1 (ground arith)
        (are_new-append acc (x ∷ e) k v (ground arith) m.0)
    ∙ ap read_so_far (append_assoc acc ((k, v) ∷ []) (x ∷ e))

all-new : (e : Env) → are_new [] e ≡ true
all-new [] = refl
all-new (x ∷ e) = all-new e

no_variables : parse_env_text (format_env_text []) ≡ read_so_far []
unfolding parse_env_text format_env_text read_lines split_lines read_line read_bare
no_variables = refl

-- Variables with distinct names that can be used come back from the text they are written in, with
-- their values and in their order, whatever the values hold, and no line is refused.
pub parse_env_text-format_env_text :
    (e : Env)
    → IsMap e
    → all is_usable e ≡ true
    → parse_env_text (format_env_text e) ≡ record { env = e; errors = [] }
unfolding parse_env_text
parse_env_text-format_env_text [] m u = no_variables
parse_env_text-format_env_text (x ∷ e) m u = read_lines-entries [] 1 x e m u (all-new (x ∷ e))
