-- ===== src/Database/Gtid/Ranges.antt =====
-- Every interval that parseGtidSet of shared/mysql-ha.mjs reads is a range of numbers from 1 on.
use forthway_command_center.Base.{
  ℕ, ◌≤◌, ◌≡◌, subst, inl, inr, not, ◌||◌, Option, none, some, List, [], ◌∷◌, ◌++◌, ltb, ◌==◌,
  arith, Bool-cases, Option-cases, All, Text, text_eq, map_get, map_set,
}
use forthway_command_center.Database.Gtid.Parse.{
  Interval, GtidMap, is_safe, pushed, add, raised, add_domain, domain_entry, range_of, is_tag,
  lower, split, is_uuid, server_entry, plain_digits, number, read_segments, read_part, read_parts,
  unspaced, read_list, read_gtid_set,
}
use forthway_command_center.Database.Gtid.{merge_all, merged_if, parse_gtid_set}
use forthway_command_center.Database.Gtid.Merged.{AreRanges, merge-sort}
use forthway_command_center.Database.Gtid.Difference.{AllApart}

pub AllRanges : GtidMap → Type 0
AllRanges = All (λ e. AreRanges e.1)

-- What is read, when it is read, has ranges only.
AreGood : Option GtidMap → Type 0
AreGood none = Unit
AreGood (some m) = AllRanges m

HasRanges : Option (List Interval) → Type 0
HasRanges none = Unit
HasRanges (some l) = AreRanges l

map_set-AllRanges :
    (m : GtidMap) (k : Text) (l : List Interval)
    → AreRanges l
    → AllRanges m
    → AllRanges (map_set m k l)
unfolding map_set AllRanges
map_set-AllRanges [] k l r w = (r, tt)
map_set-AllRanges ((j, l2) ∷ m) k l r w = elim (Bool-cases (text_eq j k)) [
  | inl e ↦ rw e (r, w.1)
  | inr e ↦ rw e (w.0, map_set-AllRanges m k l r w.1)
]

map_get-HasRanges : (m : GtidMap) (k : Text) → AllRanges m → HasRanges (map_get m k)
unfolding map_get AllRanges HasRanges
map_get-HasRanges [] k w = tt
map_get-HasRanges ((j, l2) ∷ m) k w = elim (Bool-cases (text_eq j k)) [
  | inl b ↦ rw (b, HasRanges) w.0
  | inr b ↦ rw b (map_get-HasRanges m k w.1)
]

append-AreRanges :
    (l : List Interval) (a b : ℕ) → AreRanges l → 1 ≤ a → a ≤ b → AreRanges (l ++ ((a, b) ∷ []))
unfolding AreRanges
append-AreRanges [] a b w h k = (h, k, tt)
append-AreRanges ((c, d) ∷ l) a b w h k = (w.0, w.1, append-AreRanges l a b w.2 h k)

pushed-AreRanges :
    (o : Option (List Interval)) (a b : ℕ)
    → HasRanges o
    → 1 ≤ a
    → a ≤ b
    → AreRanges (pushed o (a, b))
unfolding HasRanges AreRanges
pushed-AreRanges none a b w h k = (h, k, tt)
pushed-AreRanges (some l) a b w h k = append-AreRanges l a b w h k

add-AreGood : (m : GtidMap) (k : Text) (a b : ℕ) → AllRanges m → AreGood (add m k a b)
unfolding add AreGood
add-AreGood m k a b w =
    elim (Bool-cases (not (is_safe a) || not (is_safe b) || ltb a 1 || ltb b a)) [
      | inl e ↦ rw (e, AreGood) tt
      | inr e ↦
          rw (e, AreGood)
            (map_set-AllRanges m k (pushed (map_get m k) (a, b))
              (pushed-AreRanges (map_get m k) a b (map_get-HasRanges m k w) (ground arith)
                (ground arith))
              w)
    ]

raised-AreRanges : (n : ℕ) (l : List Interval) → AreRanges l → AreRanges (raised n l)
unfolding AreRanges
raised-AreRanges n [] w = tt
raised-AreRanges n ((a, b) ∷ l) w = (w.0, omega (arith, w.1), w.2)

add_domain-AreGood : (m : GtidMap) (k : Text) (n : ℕ) → AllRanges m → AreGood (add_domain m k n)
unfolding add_domain AreGood HasRanges
add_domain-AreGood m k n w = elim (Bool-cases (n == 0)) [
  | inl e ↦ rw (e, AreGood) w
  | inr e ↦ elim (Option-cases (map_get m k)) [
    | inl g ↦ rw (e, g) (add-AreGood m k 1 n w)
    | inr (l, g) ↦
        rw (e, g, AreGood)
          (map_set-AllRanges m k (raised n l)
            (raised-AreRanges n l (subst HasRanges g (map_get-HasRanges m k w))) w)
  ]
]

read_segments-AreGood :
    (u k : Text) (segs : List Text) (m : GtidMap) → AllRanges m → AreGood (read_segments u k segs m)
unfolding read_segments AreGood
read_segments-AreGood u k [] m w = w
read_segments-AreGood u k (seg ∷ segs) m w = elim (Option-cases (range_of (split b'-' seg))) [
  | inl e ↦ elim (Bool-cases (is_tag seg)) [
    | inl t ↦ rw (e, t, read_segments) (read_segments-AreGood u (u ++ (b':' ∷ lower seg)) segs m w)
    | inr t ↦ rw (e, t, read_segments, AreGood) tt
  ]
  | inr (i, e) ↦ elim (Option-cases (add m k i.0 i.1)) [
    | inl a ↦ rw (e, a, read_segments, AreGood) tt
    | inr (out, a) ↦
        rw (e, a, read_segments)
          (read_segments-AreGood u k segs out (subst AreGood a (add-AreGood m k i.0 i.1 w)))
  ]
]

server_entry-AreGood :
    (segs : List Text) (m : GtidMap) → AllRanges m → AreGood (server_entry segs m)
unfolding server_entry AreGood
server_entry-AreGood [] m w = tt
server_entry-AreGood (u ∷ segs) m w = elim (Bool-cases (is_uuid u)) [
  | inl e ↦ rw e (read_segments-AreGood (lower u) (lower u) segs m w)
  | inr e ↦ rw (e, AreGood) tt
]

read_part-AreGood : (part : Text) (m : GtidMap) → AllRanges m → AreGood (read_part part m)
unfolding read_part
read_part-AreGood part m w = elim (Option-cases (domain_entry (split b'-' part))) [
  | inl e ↦ rw (e, read_part) (server_entry-AreGood (split b':' part) m w)
  | inr ((d, n), e) ↦ rw (e, read_part) (add_domain-AreGood m (b'd' ∷ plain_digits d) (number n) w)
]

read_parts-AreGood : (ps : List Text) (m : GtidMap) → AllRanges m → AreGood (read_parts ps m)
unfolding read_parts AreGood
read_parts-AreGood [] m w = w
read_parts-AreGood ([] ∷ ps) m w = read_parts-AreGood ps m w
read_parts-AreGood ((c ∷ p) ∷ ps) m w = elim (Option-cases (read_part (c ∷ p) m)) [
  | inl e ↦ rw (e, read_parts, AreGood) tt
  | inr (out, e) ↦
      rw (e, read_parts)
        (read_parts-AreGood ps out (subst AreGood e (read_part-AreGood (c ∷ p) m w)))
]

read_list-AreGood : (t : Text) → AreGood (read_list t)
unfolding read_list AreGood AllRanges
read_list-AreGood [] = tt
read_list-AreGood (c ∷ t) = read_parts-AreGood (split b',' (c ∷ t)) [] tt

merge_all-AllApart : (m : GtidMap) → AllRanges m → AllApart (merge_all m)
unfolding merge_all AllRanges AllApart
merge_all-AllApart [] w = tt
merge_all-AllApart ((k, l) ∷ m) w = ((merge-sort l w.0).0, merge_all-AllApart m w.1)

AreParsed : Option GtidMap → Type 0
AreParsed none = Unit
AreParsed (some m) = AllApart m

merged_if-AreParsed : (o : Option GtidMap) → AreGood o → AreParsed (merged_if o)
unfolding merged_if AreGood AreParsed
merged_if-AreParsed none w = tt
merged_if-AreParsed (some m) w = merge_all-AllApart m w

-- The sets of a text that can be parsed are apart.
pub parse_gtid_set-AllApart : (s : Text) (m : GtidMap) → parse_gtid_set s ≡ some m → AllApart m
unfolding parse_gtid_set read_gtid_set AreParsed
parse_gtid_set-AllApart s m e =
    subst AreParsed e
      (merged_if-AreParsed (read_list (unspaced s)) (read_list-AreGood (unspaced s)))
