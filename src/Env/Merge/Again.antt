-- ===== src/Env/Merge/Again.antt =====
-- What mergeEnvFile of shared/env.mjs makes of a file that it wrote before.
use forthway_command_center.Base.{
  ℕ, ◌≡◌, refl, sym, ap, ◌∙◌, inl, inr, Option, none, some, [], ◌∷◌, ◌++◌, Bool-cases, Text,
  text_eq_refl, is_space,
}
use mathlib.Core.List.{append_assoc}
use forthway_command_center.Env.Merge.Cut.{
  cut, starts, after_first, prepend, cut-append, cut-found, cut-beginning, cut-before,
}
use forthway_command_center.Env.Merge.{
  start_rest, block_start, block_end, Env, between, render_env_block, trim_cons, trim_end,
  drop_line_end, added, after_end, after_block, next_text, updated, merge_env_file,
}

-- The text of a file around its block.
with_block : Text → Env → Text → Text
with_block b e a = b ++ (render_env_block e ++ (10 ∷ a))

-- The end of the block is not in it, nor in its beginning.
unfoldable pub IsClosed : Env → Type 0
IsClosed e = cut block_end (block_start ++ between e) ≡ none

block-parts :
    (e : Env) (y : Text) → render_env_block e ++ y ≡ block_start ++ (between e ++ (block_end ++ y))
unfolding render_env_block
block-parts e y =
    append_assoc block_start (between e ++ block_end) y
    ∙ ap (λ t. block_start ++ t) (append_assoc (between e) block_end y)

-- The block is found where it stands.
cut-with_block :
    (b : Text) (e : Env) (a : Text)
    → cut block_start b ≡ none
    → cut block_start (with_block b e a) ≡ some (b, between e ++ (block_end ++ (10 ∷ a)))
unfolding with_block
cut-with_block b e a n =
    ap (λ t. cut block_start (b ++ t)) (block-parts e (10 ∷ a))
    ∙ cut-found _ _ b (between e ++ (block_end ++ (10 ∷ a))) refl n

after_block-between :
    (e : Env) (a : Text) → IsClosed e → after_block (between e ++ (block_end ++ (10 ∷ a))) ≡ a
unfolding after_block after_end IsClosed drop_line_end
after_block-between e a c = ap after_end (
    ap (cut block_end) (sym (append_assoc block_start (between e) (block_end ++ (10 ∷ a))))
    ∙ cut-found _ _ (block_start ++ between e) (10 ∷ a) refl c)

spaced : Text → Text
spaced [] = []
spaced (c ∷ h) = c ∷ h ++ (10 ∷ 10 ∷ [])

-- What stands before and after the block that is written next.
frame : Text → Option (Text × Text) → Text × Text
unfolding spaced
frame current none = (spaced (trim_end current), [])
frame current (some (b, rest)) = (b, after_block rest)

added-with_block : (h : Text) (e : Env) → added h (render_env_block e) ≡ with_block (spaced h) e []
unfolding added with_block spaced
added-with_block [] e = refl
added-with_block (c ∷ h) e =
    ap (λ t. c ∷ t) (sym (append_assoc h (10 ∷ 10 ∷ []) (render_env_block e ++ (10 ∷ []))))

next_text-with_block :
    (current : Text) (x : Text × Text) (e : Env) (o : Option (Text × Text))
    → next_text current (x ∷ e) o ≡ with_block (frame current o).0 (x ∷ e) (frame current o).1
unfolding next_text frame with_block
next_text-with_block current x e none = added-with_block (trim_end current) (x ∷ e)
next_text-with_block current x e (some (b, rest)) = refl

trim_cons-splits : (c : ℕ) (s t w : Text) → s ≡ t ++ w → (v : Text) × (c ∷ s ≡ trim_cons c t ++ v)
unfolding trim_cons
trim_cons-splits c s (d ∷ t) w g = (w, ap (λ r. c ∷ r) g)
trim_cons-splits c s [] w g = elim (Bool-cases (is_space c)) [
  | inl e ↦ (c ∷ s, rw e refl)
  | inr e ↦ (s, rw e refl)
]

trim_end-splits : (s : Text) → (w : Text) × (s ≡ trim_end s ++ w)
unfolding trim_end
trim_end-splits [] = ([], refl)
trim_end-splits (c ∷ s) = let (w, g) = trim_end-splits s in trim_cons-splits c s (trim_end s) w g

prepend-none : (u : Text) → prepend u none ≡ none
unfolding prepend after_first
prepend-none [] = refl
prepend-none (c ∷ u) = rw (prepend-none u) refl

spaced-none : (h : Text) → cut block_start h ≡ none → cut block_start (spaced h) ≡ none
unfolding spaced cut starts after_first
spaced-none [] n = refl
spaced-none (c ∷ h) n =
    cut-append 10 b'#' start_rest (c ∷ h) (10 ∷ []) refl n ∙ prepend-none (c ∷ h)

-- No block begins before the one that is written.
frame-none :
    (current : Text) (o : Option (Text × Text))
    → cut block_start current ≡ o
    → cut block_start (frame current o).0 ≡ none
unfolding frame
frame-none current none n =
    let (w, g) = trim_end-splits current in
    spaced-none (trim_end current)
      (cut-beginning block_start (trim_end current) w (sym (ap (cut block_start) g) ∙ n))
frame-none current (some x) n = cut-before block_start current x n

-- A file that was written with the variables of one deploy, and is written again with those of
-- another, becomes what it would be with the latter alone. The first values do not hold the mark that
-- ends the block, and both deploys have variables.
pub updated-updated :
    (current : Text) (x y : Text × Text) (e f : Env)
    → IsClosed (x ∷ e)
    → updated (updated current (x ∷ e)) (y ∷ f) ≡ updated current (y ∷ f)
unfolding updated frame
updated-updated current x y e f c =
    let o = cut block_start current in
    let (b, a) = frame current o in
    let again = next_text-with_block current x e o in
    let found = cut-with_block b (x ∷ e) a (frame-none current o refl) in
    ap (λ t. updated t (y ∷ f)) again
    ∙ ap (next_text (with_block b (x ∷ e) a) (y ∷ f)) found
    ∙ next_text-with_block (with_block b (x ∷ e) a) y f
        (some (b, between (x ∷ e) ++ (block_end ++ (10 ∷ a))))
    ∙ ap (with_block b (y ∷ f)) (after_block-between (x ∷ e) a c)
    ∙ sym (next_text-with_block current y f o)

-- A file that was just written is left alone when it is to be written with the same variables, where
-- there are some and they do not hold the mark that ends the block.
pub merge_env_file-updated :
    (current : Text) (x : Text × Text) (e : Env)
    → IsClosed (x ∷ e)
    → merge_env_file (updated current (x ∷ e)) (x ∷ e) ≡ none
unfolding merge_env_file
merge_env_file-updated current x e c =
    rw (updated-updated current x x e e c, text_eq_refl (updated current (x ∷ e))) refl
