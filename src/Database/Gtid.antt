-- ===== src/Database/Gtid.antt =====
-- cleanGtid, parseGtidSet, gtidCount and gtidDiffCount of shared/mysql-ha.mjs. A number is read
-- exactly, where the code rounds from 2 ** 53 on; `add` refuses such numbers.
pub mod Parse
pub mod Merged
pub mod Difference
pub mod Ranges
pub mod Counted
use forthway_command_center.Base.{
  ℕ, zero, suc, ◌+◌, ◌-◌, ◌^◌, min, max, Bool, true, false, not, ◌||◌, Option, none, some, List, [],
  ◌∷◌, ltb, leb, if◌then◌else◌, Text, map_get,
}
use forthway_command_center.Database.Gtid.Parse.{Interval, GtidMap, read_gtid_set}

-- `sort((x, y) => x[0] - y[0])`
unfoldable pub place : Interval → List Interval → List Interval
place i [] = i ∷ []
place (a, b) ((c, d) ∷ l) =
    let rest = place (a, b) l in if leb a c then (a, b) ∷ (c, d) ∷ l else (c, d) ∷ rest

unfoldable pub sort : List Interval → List Interval
sort [] = []
sort (i ∷ l) = place i (sort l)

-- The loop that merges, with the last interval and the ones to come.
unfoldable pub merge_into : ℕ → ℕ → List Interval → List Interval
merge_into a b [] = (a, b) ∷ []
merge_into a b ((c, d) ∷ l) =
    if leb c (b + 1) then merge_into a (max b d) l else (a, b) ∷ merge_into c d l

unfoldable pub merge : List Interval → List Interval
merge [] = []
merge ((a, b) ∷ l) = merge_into a b l

unfoldable pub merge_all : GtidMap → GtidMap
merge_all [] = []
merge_all ((k, l) ∷ m) = (k, merge (sort l)) ∷ merge_all m

merged_if : Option GtidMap → Option GtidMap
merged_if none = none
merged_if (some m) = some (merge_all m)

unfoldable pub parse_gtid_set : Text → Option GtidMap
unfolding merged_if
parse_gtid_set s = merged_if (read_gtid_set s)

unfoldable pub widths : List Interval → ℕ
widths [] = 0
widths ((a, b) ∷ l) = (b - a + 1) + widths l

unfoldable pub map_count : GtidMap → ℕ
map_count [] = 0
map_count ((k, l) ∷ m) = widths l + map_count m

unfoldable pub gtid_count : Text → Option ℕ
gtid_count s = elim (parse_gtid_set s) [ none ↦ none | some m ↦ some (map_count m) ]

-- The transactions of an interval that are in a list of intervals.
unfoldable pub covered : ℕ → ℕ → List Interval → ℕ
covered a0 a1 [] = 0
covered a0 a1 ((b0, b1) ∷ sub) =
    let rest = covered a0 a1 sub in
    if ltb b1 a0 then rest else if ltb a1 b0 then 0 else min a1 b1 - max a0 b0 + 1 + rest

unfoldable pub uncovered : List Interval → List Interval → ℕ
uncovered [] sub = 0
uncovered ((a0, a1) ∷ l) sub = (a1 - a0 + 1 - covered a0 a1 sub) + uncovered l sub

-- `B.get(k) || []`
abbrev pub list_of : GtidMap → Text → List Interval
list_of m k = elim (map_get m k) [ none ↦ [] | some l ↦ l ]

unfoldable pub map_diff : GtidMap → GtidMap → ℕ
map_diff [] other = 0
map_diff ((k, l) ∷ m) other = uncovered l (list_of other k) + map_diff m other

diff_if : Option GtidMap → Option GtidMap → Option ℕ
diff_if (some a) (some b) = some (map_diff a b)
diff_if _ _ = none

unfoldable pub gtid_diff_count : Text → Text → Option ℕ
unfolding diff_if
gtid_diff_count s t = diff_if (parse_gtid_set s) (parse_gtid_set t)
