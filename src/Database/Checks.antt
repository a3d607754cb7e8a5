-- ===== src/Database/Checks.antt =====
-- GTID sets at concrete inputs.
use forthway_command_center.Base.{
  ℕ, ◌≡◌, refl, some, List, [], ◌∷◌, ◌++◌, Text, codes, text_eq, arith, map_get, map_set,
}
use forthway_command_center.Database.Gtid.Parse.{
  Interval, GtidMap, split, add, add_domain, domain_entry, range_of, is_uuid, is_tag, read_segments,
  server_entry, read_part, read_parts, read_list, read_gtid_set, unspaced, plain_digits,
}
use forthway_command_center.Database.Gtid.{
  place, sort, merge, merge_into, merge_all, parse_gtid_set, gtid_diff_count,
}
use forthway_command_center.Database.Gtid.Merged.{AreRanges, AreApart, covers, merge-sort}
use forthway_command_center.Database.Gtid.Difference.{AllBelow, AreBelow, missing}
use forthway_command_center.Database.Gtid.Counted.{gtid_diff_count-missing}

abbrev server : Text
server = codes "3e11fa47-71ca-11e1-9e33-c80aa9429562"

abbrev source_set : Text
source_set = server ++ codes ":7-9:1-5:6, 0-1-4"

abbrev replica_set : Text
replica_set = server ++ codes ":2-3"

abbrev source_map : GtidMap
source_map = (server, (1, 9) ∷ []) ∷ (codes "d0", (1, 4) ∷ []) ∷ []

abbrev replica_map : GtidMap
replica_map = (server, (2, 3) ∷ []) ∷ []

source_parsed : parse_gtid_set source_set ≡ some source_map
unfolding parse_gtid_set read_gtid_set read_list unspaced read_parts split read_part domain_entry
    is_uuid read_segments range_of add add_domain map_get map_set text_eq merge_all merge
    plain_digits is_tag server_entry merge_into place sort
source_parsed = refl

replica_parsed : parse_gtid_set replica_set ≡ some replica_map
unfolding parse_gtid_set read_gtid_set read_list unspaced read_parts split read_part domain_entry
    is_uuid read_segments range_of add add_domain map_get map_set text_eq merge_all merge
    plain_digits is_tag server_entry merge_into place sort
replica_parsed = refl

gtid_diff_count-missing_example :
    gtid_diff_count source_set replica_set ≡ some (missing 10 source_map replica_map)
unfolding AllBelow AreBelow
gtid_diff_count-missing_example =
    gtid_diff_count-missing 10 source_set replica_set source_map replica_map source_parsed
      replica_parsed (omega arith)

abbrev three_ranges : List Interval
three_ranges = (7, 9) ∷ (1, 5) ∷ (6, 6) ∷ []

three_ranges-AreRanges : AreRanges three_ranges
unfolding AreRanges
three_ranges-AreRanges = omega arith

merge-sort_example :
    AreApart 0 (merge (sort three_ranges))
    × ((x : ℕ) → covers (merge (sort three_ranges)) x ≡ covers three_ranges x)
merge-sort_example = merge-sort three_ranges three_ranges-AreRanges
