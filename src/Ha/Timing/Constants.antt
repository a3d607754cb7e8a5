-- ===== src/Ha/Timing/Constants.antt =====
-- The bounds and legacy values of shared/ha-timing.mjs, and its two arithmetic helpers.
use forthway_command_center.Base.{ℕ, ◌*◌, min, max, round_div}

abbrev pub failover_seconds_default : ℕ
failover_seconds_default = 15

abbrev pub failover_seconds_min : ℕ
failover_seconds_min = 10

abbrev pub failover_seconds_max : ℕ
failover_seconds_max = 300

abbrev pub legacy_lease_ms : ℕ
legacy_lease_ms = 15000

abbrev pub legacy_heartbeat_ms : ℕ
legacy_heartbeat_ms = 3000

abbrev pub lease_min_ms : ℕ
lease_min_ms = 3000

abbrev pub lease_max_ms : ℕ
lease_max_ms = 180000

abbrev pub heartbeat_min_ms : ℕ
heartbeat_min_ms = 1000

abbrev pub heartbeat_max_ms : ℕ
heartbeat_max_ms = 5000

abbrev pub clamp : ℕ → ℕ → ℕ → ℕ
clamp n lo hi = min hi (max lo n)

-- `r100(a / b)`
abbrev pub r100 : ℕ → ℕ → ℕ
r100 a b = round_div a (100 * b) * 100
