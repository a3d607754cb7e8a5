-- ===== src/Ha/Timing.antt =====
-- shared/ha-timing.mjs: every duration of panel failover, derived from one setting.
mod Constants
pub mod Derive
pub mod Bounds
pub use Constants.*
use Derive
use forthway_command_center.Base.{
  ℕ, ◌+◌, ◌-◌, ◌*◌, ◌/◌, ◌≤◌, min, max, Bool, ◌&&◌, Option, none, some, [], ◌∷◌, leb, if◌then◌else◌,
  Text, trim, Number, Value, natural, to_number, round_div,
}

in_range : Option ℕ → Option ℕ
in_range none = none
in_range (some n) =
    if leb failover_seconds_min n && leb n failover_seconds_max then some n else none

-- The `Number(v)` of a string that is not blank, or the value itself.
seconds_text : Text → Number → Option ℕ
seconds_text [] x = none
seconds_text (c ∷ s) x = natural x

unfoldable pub check_failover_seconds : Value → Option ℕ
unfolding in_range seconds_text
check_failover_seconds (Value.num x) = in_range (natural x)
check_failover_seconds (Value.text s x) = in_range (seconds_text (trim s) x)
check_failover_seconds _ = none

abbrev pub or_default : Option ℕ → ℕ → ℕ
or_default none d = d
or_default (some n) d = n

unfoldable pub effective_failover_seconds : Value → ℕ
unfolding check_failover_seconds
effective_failover_seconds v = or_default (check_failover_seconds v) failover_seconds_default

pub record Timings : Type 0 where
  pub failover_seconds : ℕ
  pub heartbeat_ms : ℕ
  pub lease_ms : ℕ
  pub margin_ms : ℕ
  pub failover_ms : ℕ
  pub request_timeout_ms : ℕ
  pub poll_wait_s : ℕ
  pub voter_fresh_ms : ℕ
  pub tie_break_ms : ℕ
  pub candidacy_ms : ℕ
  pub fence_hooks_ms : ℕ
  pub db_silent_ms : ℕ
  pub db_probe_ms : ℕ
  pub db_tcp_timeout_ms : ℕ
  pub db_tcp_fails : ℕ
  pub detect_ms : ℕ
  pub panel_takeover_ms : ℕ
  pub database_failover_ms : ℕ
  pub blip_tolerance_ms : ℕ

abbrev timings_of : ℕ → Timings
timings_of s = record {
  failover_seconds = s;
  heartbeat_ms = Derive.heartbeat s;
  lease_ms = Derive.lease s;
  margin_ms = Derive.margin s;
  failover_ms = Derive.failover s;
  request_timeout_ms = min 2500 (round_div (9 * Derive.heartbeat s) 10);
  poll_wait_s = clamp (Derive.failover s / 2500) 1 5;
  voter_fresh_ms = 2 * Derive.heartbeat s + 2000;
  tie_break_ms = Derive.tie_break s;
  candidacy_ms = max 10000 (Derive.lease s + 2 * Derive.heartbeat s);
  fence_hooks_ms = clamp (Derive.margin s - 250) 750 3000;
  db_silent_ms = 3 * Derive.heartbeat s;
  db_probe_ms = Derive.db_probe s;
  db_tcp_timeout_ms = clamp (round_div (8 * Derive.heartbeat s) 10) 800 3000;
  db_tcp_fails = 3;
  detect_ms = Derive.detect s;
  panel_takeover_ms = Derive.takeover s;
  database_failover_ms =
      max (Derive.takeover s) (Derive.detect s) + 2 * Derive.db_probe s + 700 + 1500;
  blip_tolerance_ms = Derive.blip s;
}

unfoldable pub ha_timings : Value → Timings
unfolding effective_failover_seconds
ha_timings v = timings_of (effective_failover_seconds v)

-- What is shown of the durations, in tenths of a second: `Math.round(ms / 100) / 10` seconds.
pub record Summary : Type 0 where
  pub failover_seconds : ℕ
  pub panel_takeover : ℕ
  pub database_failover : ℕ
  pub heartbeat : ℕ
  pub blip_tolerance : ℕ
  pub lease : ℕ
  pub detect : ℕ
  pub min : ℕ
  pub max : ℕ
  pub default : ℕ

unfoldable pub timing_summary : Value → Summary
timing_summary v =
    let t = ha_timings v in
    record {
      failover_seconds = t.failover_seconds;
      panel_takeover = round_div t.panel_takeover_ms 100;
      database_failover = round_div t.database_failover_ms 100;
      heartbeat = round_div t.heartbeat_ms 100;
      blip_tolerance = round_div t.blip_tolerance_ms 100;
      lease = round_div t.lease_ms 100;
      detect = round_div t.detect_ms 100;
      min = failover_seconds_min;
      max = failover_seconds_max;
      default = failover_seconds_default;
    }

-- What a leader tells voters and agents.
pub record Advertised : Type 0 where
  pub failover_seconds : ℕ
  pub heartbeat_ms : ℕ
  pub lease_ms : ℕ

unfoldable pub advertised : Value → Advertised
unfolding ha_timings
advertised v =
    let t = ha_timings v in
    record {
      failover_seconds = t.failover_seconds;
      heartbeat_ms = t.heartbeat_ms;
      lease_ms = t.lease_ms;
    }

-- `Number.isFinite(n) && n > 0`, with `Math.round(n)`.
abbrev pub positive_rounded : Number → Option ℕ
positive_rounded (Number.decimal n) = if leb 1 n then some (round_div n 1000) else none
positive_rounded _ = none

clean_lease : Option ℕ → ℕ
clean_lease none = legacy_lease_ms
clean_lease (some n) = clamp n lease_min_ms lease_max_ms

unfoldable pub clean_lease_ms : Value → ℕ
unfolding clean_lease
clean_lease_ms v = clean_lease (positive_rounded (to_number v))

clean_heartbeat : Option ℕ → Option ℕ
clean_heartbeat none = none
clean_heartbeat (some n) = some (clamp n heartbeat_min_ms heartbeat_max_ms)

unfoldable pub clean_heartbeat_ms : Value → Option ℕ
unfolding clean_heartbeat
clean_heartbeat_ms v = clean_heartbeat (positive_rounded (to_number v))
