-- ===== src/Database/Gtid/Difference.antt =====
-- What gtidCount and gtidDiffCount of shared/mysql-ha.mjs count.
use forthway_command_center.Base.{
  ℕ, zero, suc, ◌+◌, ◌-◌, min, max, ◌≤◌, ◌<◌, ◌≡◌, refl, sym, ◌∙◌, inl, inr, Bool, true, false, not,
  ◌&&◌, ◌||◌, List, [], ◌∷◌, if◌then◌else◌, arith, Bool-cases, All, Text, text_eq, map_get,
}
use forthway_command_center.Database.Gtid.Parse.{Interval, GtidMap}
use forthway_command_center.Database.Gtid.{covered, uncovered, list_of, map_diff}
use forthway_command_center.Database.Gtid.Merged.{inside, covers, AreApart}

-- How many of the numbers below a bound pass a test.
unfoldable pub how_many : ℕ → (ℕ → Bool) → ℕ
how_many zero p = 0
how_many (suc n) p = (if p n then 1 else 0) + how_many n p

how_many-ext : (n : ℕ) (p q : ℕ → Bool) → ((x : ℕ) → p x ≡ q x) → how_many n p ≡ how_many n q
unfolding how_many
how_many-ext zero p q h = refl
how_many-ext (suc n) p q h = rw (h n, how_many-ext n p q h) refl

how_many-or :
    (n : ℕ) (p q : ℕ → Bool)
    → ((x : ℕ) → (p x && q x) ≡ false)
    → how_many n (λ x. p x || q x) ≡ how_many n p + how_many n q
unfolding how_many
how_many-or zero p q h = refl
how_many-or (suc n) p q h = ground (arith, h n, how_many-or n p q h)

how_many-not :
    (n : ℕ) (p q : ℕ → Bool)
    → how_many n (λ x. p x && q x) + how_many n (λ x. p x && not (q x)) ≡ how_many n p
unfolding how_many
how_many-not zero p q = refl
how_many-not (suc n) p q = ground (arith, how_many-not n p q)

how_many-none : (n : ℕ) (p : ℕ → Bool) → ((x : ℕ) → p x ≡ false) → how_many n p ≡ 0
unfolding how_many
how_many-none zero p h = refl
how_many-none (suc n) p h = ground (arith, h n, how_many-none n p h)

how_many-inside : (n a b : ℕ) → how_many n (inside a b) ≡ min n (b + 1) - a
unfolding how_many inside
how_many-inside zero a b = omega arith
how_many-inside (suc n) a b = ground (arith, how_many-inside n a b)

unfoldable pub AreBelow : ℕ → List Interval → Type 0
AreBelow n = All (λ i. i.1 < n)

covers-before : (low x : ℕ) (l : List Interval) → AreApart low l → x ≤ low → covers l x ≡ false
unfolding covers AreApart inside
covers-before low x [] w h = refl
covers-before low x ((a, b) ∷ l) w h = ground (arith, w.0, w.1, covers-before (b + 1) x l w.2)

-- The test for the first of two lists of numbers, or for the second.
and-or : (p q r : Bool) → (p && (q || r)) ≡ ((p && q) || (p && r))
and-or true q r = refl
and-or false q r = refl

or-and : (p q r : Bool) → ((p || q) && r) ≡ ((p && r) || (q && r))
or-and true q r = ground arith
or-and false q r = refl

head-apart :
    (low a b : ℕ) (l : List Interval) (x : ℕ)
    → AreApart low ((a, b) ∷ l)
    → (inside a b x && covers l x) ≡ false
unfolding AreApart inside
head-apart low a b l x w = ground (arith, covers-before (b + 1) x l w.2)

-- The common numbers of two intervals are an interval.
inside-both : (a b c d x : ℕ) → (inside a b x && inside c d x) ≡ inside (max a c) (min b d) x
unfolding inside
inside-both a b c d x = ground arith

how_many-both :
    (n a b c d : ℕ)
    → b < n
    → how_many n (λ x. inside a b x && inside c d x) ≡ (min b d + 1) - max a c
how_many-both n a b c d h =
    how_many-ext n (λ x. inside a b x && inside c d x) (inside (max a c) (min b d))
      (inside-both a b c d)
    ∙ how_many-inside n (max a c) (min b d)
    ∙ omega (arith, h)

-- The rest of the list is not reached.
how_many-after :
    (n a b low : ℕ) (l : List Interval)
    → AreApart low l
    → b ≤ low
    → how_many n (λ x. inside a b x && covers l x) ≡ 0
unfolding inside
how_many-after n a b low l w h =
    how_many-none n (λ x. inside a b x && covers l x) (λ x. ground (arith, covers-before low x l w))

covered_lem :
    (n a0 a1 low : ℕ) (sub : List Interval)
    → AreApart low sub
    → a0 ≤ a1
    → a1 < n
    → covered a0 a1 sub ≡ how_many n (λ x. inside a0 a1 x && covers sub x)
unfolding covered covers AreApart
covered_lem n a0 a1 low [] w h k = sym (how_many-none n _ (λ x. ground arith))
covered_lem n a0 a1 low ((b0, b1) ∷ sub) w h k =
    let both = how_many-both n a0 a1 b0 b1 k in
    let split =
      how_many-ext n (λ x. inside a0 a1 x && (inside b0 b1 x || covers sub x))
        (λ x. (inside a0 a1 x && inside b0 b1 x) || (inside a0 a1 x && covers sub x))
        (λ x. and-or (inside a0 a1 x) (inside b0 b1 x) (covers sub x)) in
    let sum =
      how_many-or n (λ x. inside a0 a1 x && inside b0 b1 x) (λ x. inside a0 a1 x && covers sub x)
        (λ x. ground (arith, head-apart low b0 b1 sub x w)) in
    let rest = covered_lem n a0 a1 (b1 + 1) sub w.2 h k in
    let after = how_many-after n a0 a1 (b1 + 1) sub w.2 in
    ground (arith, both, split, sum, rest, after, w.1)

uncovered_lem :
    (n low bound : ℕ) (l sub : List Interval)
    → AreApart low l
    → AreApart bound sub
    → AreBelow n l
    → uncovered l sub ≡ how_many n (λ x. covers l x && not (covers sub x))
unfolding uncovered covers AreApart AreBelow
uncovered_lem n low bound [] sub w v h = sym (how_many-none n _ (λ x. refl))
uncovered_lem n low bound ((a0, a1) ∷ l) sub w v h =
    let c = covered_lem n a0 a1 bound sub v w.1 h.0 in
    let parts = how_many-not n (inside a0 a1) (covers sub) in
    let whole = how_many-inside n a0 a1 in
    let split =
      how_many-ext n (λ x. (inside a0 a1 x || covers l x) && not (covers sub x))
        (λ x. (inside a0 a1 x && not (covers sub x)) || (covers l x && not (covers sub x)))
        (λ x. or-and (inside a0 a1 x) (covers l x) (not (covers sub x))) in
    let sum =
      how_many-or n (λ x. inside a0 a1 x && not (covers sub x))
        (λ x. covers l x && not (covers sub x)) (λ x. ground (arith, head-apart low a0 a1 l x w)) in
    let rest = uncovered_lem n (a1 + 1) bound l sub w.2 v h.1 in
    omega (arith, c, parts, whole, split, sum, rest, w.1, h.0)

-- The sets of all keys are apart, and below a bound.
unfoldable pub AllApart : GtidMap → Type 0
AllApart = All (λ e. AreApart 0 e.1)

unfoldable pub AllBelow : ℕ → GtidMap → Type 0
AllBelow n = All (λ e. AreBelow n e.1)

-- The number of transactions of one set that are not in another, counted one by one.
unfoldable pub missing : ℕ → GtidMap → GtidMap → ℕ
missing n [] other = 0
missing n ((k, l) ∷ m) other =
    how_many n (λ x. covers l x && not (covers (list_of other k) x)) + missing n m other

no_list-AreApart : AreApart 0 []
unfolding AreApart
no_list-AreApart = tt

list_of-AreApart : (m : GtidMap) (k : Text) → AllApart m → AreApart 0 (list_of m k)
unfolding AllApart map_get
list_of-AreApart [] k w = no_list-AreApart
list_of-AreApart ((j, l) ∷ m) k w = elim (Bool-cases (text_eq j k)) [
  | inl e ↦ rw (e, list_of) w.0
  | inr e ↦ rw (e, list_of) (list_of-AreApart m k w.1)
]

pub map_diff_lem :
    (n : ℕ) (m other : GtidMap)
    → AllApart m
    → AllApart other
    → AllBelow n m
    → map_diff m other ≡ missing n m other
unfolding map_diff missing AllApart AllBelow
map_diff_lem n [] other w v h = refl
map_diff_lem n ((k, l) ∷ m) other w v h =
    rw
      (
        uncovered_lem n 0 0 l (list_of other k) w.0 (list_of-AreApart other k v) h.0,
        map_diff_lem n m other w.1 v h.1,
      )
      refl
