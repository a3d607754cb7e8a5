-- ===== src/Ha/Timing/Bounds.antt =====
-- What the derived durations promise one another, for every stored setting.
use forthway_command_center.Base.{
  ℕ, ◌+◌, ◌*◌, ◌≤◌, ◌<◌, ◌≡◌, some, arith, leb, ◌&&◌, Value, if◌then◌else◌, whole,
}
use forthway_command_center.Ha.Timing.{
  effective_failover_seconds, ha_timings, timing_summary, Timings, clean_lease_ms, timings_of,
  clean_heartbeat_ms, failover_seconds_min, failover_seconds_max, lease_min_ms, lease_max_ms,
  heartbeat_min_ms, heartbeat_max_ms,
}

pub effective_failover_seconds_bounds :
    (v : Value)
    → (failover_seconds_min ≤ effective_failover_seconds v)
      × (effective_failover_seconds v ≤ failover_seconds_max)
unfolding effective_failover_seconds
effective_failover_seconds_bounds v = ground arith

-- The promises of the durations derived from `seconds`.
pub record IsSound (seconds : ℕ) (t : Timings) : Type 0 where
  pub target : t.database_failover_ms ≤ seconds * 1000
  pub takeover : t.panel_takeover_ms < t.database_failover_ms
  pub standby : t.failover_ms + t.heartbeat_ms ≡ t.lease_ms
  pub poll : t.poll_wait_s * 1000 < t.failover_ms
  pub request : t.request_timeout_ms < t.heartbeat_ms
  pub hooks : t.fence_hooks_ms < t.margin_ms
  pub margin : 1000 ≤ t.margin_ms
  pub renewals : t.margin_ms + 2 * t.heartbeat_ms + t.blip_tolerance_ms ≤ t.lease_ms
  pub blip : 1500 ≤ t.blip_tolerance_ms
  pub candidacy : t.lease_ms + 2 * t.heartbeat_ms ≤ t.candidacy_ms
  pub tie : 2 * t.tie_break_ms ≤ t.heartbeat_ms + 1
  pub lease : (lease_min_ms ≤ t.lease_ms) × (t.lease_ms ≤ lease_max_ms)
  pub beat : (heartbeat_min_ms ≤ t.heartbeat_ms) × (t.heartbeat_ms ≤ heartbeat_max_ms)

timings_of-IsSound : (s : ℕ) → 10 ≤ s → s ≤ 300 → IsSound s (timings_of s)
timings_of-IsSound s lo hi = omega arith

-- Whatever is stored as the setting, the durations derived from it fit together: database failover
-- is within the target and longer than the takeover of the panel, a standby's silence and one
-- heartbeat make a lease, a long poll ends before a standby stands, a request before the next
-- heartbeat and the hooks before the margin; lease and heartbeat are within their limits, and a
-- lease outlasts its margin, two heartbeats and the network blip that is tolerated.
pub ha_timings-IsSound : (v : Value) → IsSound (effective_failover_seconds v) (ha_timings v)
unfolding ha_timings
ha_timings-IsSound v =
    let b = effective_failover_seconds_bounds v in
    timings_of-IsSound (effective_failover_seconds v) b.0 b.1

-- The setting in force is a stored number in range, and otherwise the default.
pub effective-whole :
    (n : ℕ)
    → effective_failover_seconds (whole n)
      ≡ (if leb failover_seconds_min n && leb n failover_seconds_max then n else 15)
unfolding effective_failover_seconds
effective-whole n = ground arith

pub clean_lease_ms_bounds :
    (v : Value) → (lease_min_ms ≤ clean_lease_ms v) × (clean_lease_ms v ≤ lease_max_ms)
unfolding clean_lease_ms
clean_lease_ms_bounds v = ground arith

-- A lease within the limits passes the voter's check unchanged.
pub clean_lease_ms-whole :
    (n : ℕ) → lease_min_ms ≤ n → n ≤ lease_max_ms → clean_lease_ms (whole n) ≡ n
unfolding clean_lease_ms
clean_lease_ms-whole n lo hi = ground arith

pub clean_heartbeat_ms_bounds :
    (v : Value) {n : ℕ}
    → clean_heartbeat_ms v ≡ some n
    → (heartbeat_min_ms ≤ n) × (n ≤ heartbeat_max_ms)
unfolding clean_heartbeat_ms
clean_heartbeat_ms_bounds v h = ground arith

-- The database failover that is shown, in tenths of a second, is at most the setting that is shown,
-- and longer than the takeover of the panel or as long.
pub timing_summary_bounds :
    (v : Value)
    → ((timing_summary v).database_failover ≤ 10 * (timing_summary v).failover_seconds)
      × ((timing_summary v).panel_takeover ≤ (timing_summary v).database_failover)
unfolding timing_summary ha_timings
timing_summary_bounds v = let h = ha_timings-IsSound v in omega (arith, h.target, h.takeover)
