-- ===== src/Ha/Timing/Derive.antt =====
-- The durations of `haTimings` in terms of the seconds in force, in the order of the source.
use forthway_command_center.Base.{ℕ, ◌+◌, ◌-◌, ◌*◌, min, max, round_div}
use forthway_command_center.Ha.Timing.Constants.{
  heartbeat_min_ms, heartbeat_max_ms, lease_min_ms, lease_max_ms, clamp, r100,
}

abbrev pub heartbeat : ℕ → ℕ
heartbeat s = clamp (r100 (s * 1000) 15) heartbeat_min_ms heartbeat_max_ms

abbrev pub lease : ℕ → ℕ
lease s = clamp (r100 (45 * (s * 1000)) 100) lease_min_ms lease_max_ms

abbrev pub margin : ℕ → ℕ
margin s = max 1000 (r100 (lease s) 5)

abbrev pub failover : ℕ → ℕ
failover s = lease s - heartbeat s

abbrev pub tie_break : ℕ → ℕ
tie_break s = min 3000 (round_div (heartbeat s) 2)

abbrev pub db_probe : ℕ → ℕ
db_probe s = max 500 (round_div (heartbeat s) 2)

abbrev pub detect : ℕ → ℕ
detect s = max 3000 (r100 (s * 1000) 3)

abbrev pub takeover : ℕ → ℕ
takeover s = lease s + heartbeat s + tie_break s + 500

abbrev pub blip : ℕ → ℕ
blip s = min (lease s - margin s - 2 * heartbeat s) (detect s)
