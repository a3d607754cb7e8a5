-- ===== src/Database/Gtid/Counted.antt =====
-- gtidDiffCount of shared/mysql-ha.mjs counts what is missing.
use forthway_command_center.Base.{ℕ, ◌≡◌, refl, some, Text}
use forthway_command_center.Database.Gtid.Parse.{GtidMap}
use forthway_command_center.Database.Gtid.{parse_gtid_set, gtid_diff_count, diff_if}
use forthway_command_center.Database.Gtid.Difference.{AllBelow, missing, map_diff_lem}
use forthway_command_center.Database.Gtid.Ranges.{parse_gtid_set-AllApart}

-- For two texts that can be parsed, the difference is the number of transactions of the first that
-- are not in the second, counted one by one up to any bound above those of the first.
pub gtid_diff_count-missing :
    (n : ℕ) (s t : Text) (a b : GtidMap)
    → parse_gtid_set s ≡ some a
    → parse_gtid_set t ≡ some b
    → AllBelow n a
    → gtid_diff_count s t ≡ some (missing n a b)
unfolding gtid_diff_count diff_if
gtid_diff_count-missing n s t a b e f h =
    rw (e, f, map_diff_lem n a b (parse_gtid_set-AllApart s a e) (parse_gtid_set-AllApart t b f) h)
      refl
