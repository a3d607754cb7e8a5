-- ===== src/Database/Gtid/Merged.antt =====
-- What sorting and merging make of the intervals of a key, shared/mysql-ha.mjs.
use forthway_command_center.Base.{
  ℕ, ◌+◌, max, ◌≤◌, ◌<◌, ◌≡◌, refl, ap, ◌∙◌, inl, inr, Bool, false, ◌&&◌, ◌||◌, List, [], ◌∷◌, leb,
  arith, Bool-cases,
}
use forthway_command_center.Database.Gtid.Parse.{Interval}
use forthway_command_center.Database.Gtid.{place, sort, merge_into, merge}

-- The numbers of an interval, and of a list of them.
unfoldable pub inside : ℕ → ℕ → ℕ → Bool
inside a b x = leb a x && leb x b

unfoldable pub covers : List Interval → ℕ → Bool
covers [] x = false
covers ((a, b) ∷ l) x = inside a b x || covers l x

-- Intervals that are apart: each begins after the bound, and the next one leaves a number out.
unfoldable pub AreApart : ℕ → List Interval → Type 0
AreApart low [] = Unit
AreApart low ((a, b) ∷ l) = (low < a) × (a ≤ b) × AreApart (b + 1) l

unfoldable pub AreRanges : List Interval → Type 0
AreRanges [] = Unit
AreRanges ((a, b) ∷ l) = (1 ≤ a) × (a ≤ b) × AreRanges l

AreSorted : ℕ → List Interval → Type 0
AreSorted low [] = Unit
AreSorted low ((a, b) ∷ l) = (low ≤ a) × (a ≤ b) × AreSorted a l

AreSorted-le : (m n : ℕ) (l : List Interval) → m ≤ n → AreSorted n l → AreSorted m l
unfolding AreSorted
AreSorted-le m n [] h w = tt
AreSorted-le m n ((a, b) ∷ l) h w = (omega (arith, h, w.0), w.1, w.2)

place-AreSorted :
    (low a b : ℕ) (l : List Interval)
    → low ≤ a
    → a ≤ b
    → AreSorted low l
    → AreSorted low (place (a, b) l)
unfolding place AreSorted
place-AreSorted low a b [] h k w = (h, k, tt)
place-AreSorted low a b ((c, d) ∷ l) h k w = elim (Bool-cases (leb a c)) [
  | inl e ↦ rw e (h, k, (ground arith, w.1, w.2))
  | inr e ↦ rw e (w.0, w.1, place-AreSorted c a b l (ground arith) k w.2)
]

sort-AreSorted : (l : List Interval) → AreRanges l → AreSorted 1 (sort l)
unfolding sort AreSorted AreRanges
sort-AreSorted [] w = tt
sort-AreSorted ((a, b) ∷ l) w = place-AreSorted 1 a b (sort l) w.0 w.1 (sort-AreSorted l w.2)

place-covers :
    (a b : ℕ) (l : List Interval) (x : ℕ) → covers (place (a, b) l) x ≡ (inside a b x || covers l x)
unfolding place covers
place-covers a b [] x = refl
place-covers a b ((c, d) ∷ l) x = ground (arith, place-covers a b l x)

sort-covers : (l : List Interval) (x : ℕ) → covers (sort l) x ≡ covers l x
unfolding sort covers
sort-covers [] x = refl
sort-covers ((a, b) ∷ l) x =
    place-covers a b (sort l) x ∙ ap (λ c. inside a b x || c) (sort-covers l x)

merge_into-AreApart :
    (low a b : ℕ) (l : List Interval)
    → low < a
    → a ≤ b
    → AreSorted a l
    → AreApart low (merge_into a b l)
unfolding merge_into AreSorted AreApart
merge_into-AreApart low a b [] h k w = (h, k, tt)
merge_into-AreApart low a b ((c, d) ∷ l) h k w = elim (Bool-cases (leb c (b + 1))) [
  | inl e ↦
      rw e (merge_into-AreApart low a (max b d) l h (omega (arith, k)) (AreSorted-le a c l w.0 w.2))
  | inr e ↦ rw e (h, k, merge_into-AreApart (b + 1) c d l (ground arith) w.1 w.2)
]

-- Two intervals that touch are one.
inside-max :
    (a b c d x : ℕ)
    → a ≤ c
    → c ≤ b + 1
    → a ≤ b
    → c ≤ d
    → inside a (max b d) x ≡ (inside a b x || inside c d x)
unfolding inside
inside-max a b c d x h k m n = ground arith

merge_into-covers :
    (a b : ℕ) (l : List Interval) (x : ℕ)
    → a ≤ b
    → AreSorted a l
    → covers (merge_into a b l) x ≡ (inside a b x || covers l x)
unfolding merge_into AreSorted covers
merge_into-covers a b [] x k w = refl
merge_into-covers a b ((c, d) ∷ l) x k w = ground (
  arith,
  inside-max a b c d x w.0,
  merge_into-covers a (max b d) l x (omega (arith, k)) (AreSorted-le a c l w.0 w.2),
  merge_into-covers c d l x w.1 w.2,
)

sorted-AreApart : (l : List Interval) → AreSorted 1 l → AreApart 0 (merge l)
unfolding merge AreSorted AreApart
sorted-AreApart [] w = tt
sorted-AreApart ((a, b) ∷ l) w = merge_into-AreApart 0 a b l w.0 w.1 w.2

sorted-covers : (l : List Interval) (x : ℕ) → AreSorted 1 l → covers (merge l) x ≡ covers l x
unfolding merge AreSorted covers
sorted-covers [] x w = refl
sorted-covers ((a, b) ∷ l) x w = merge_into-covers a b l x w.1 w.2

-- Ranges that are sorted and merged are apart, with a number left out between two of them, and hold
-- the numbers that they held before, however the ranges lay and in whatever order.
pub merge-sort :
    (l : List Interval)
    → AreRanges l
    → AreApart 0 (merge (sort l)) × ((x : ℕ) → covers (merge (sort l)) x ≡ covers l x)
merge-sort l w =
    let s = sort-AreSorted l w in
    (sorted-AreApart (sort l) s, λ x. sorted-covers (sort l) x s ∙ sort-covers l x)
