-- ===== src/SignIn/Throttle.antt =====
-- LoginThrottle, panel/lib/auth.mjs. Times are milliseconds of a clock that is not set back.
use forthway_command_center.Base.{
  ℕ, ◌-◌, suc, Bool, not, Option, none, some, List, ltb, leb, if◌then◌else◌, length, select, Text,
  map_get, map_set, map_delete,
}

pub record Attempts : Type 0 where
  pub first : ℕ
  pub count : ℕ

pub record Throttle : Type 0 where
  pub max_attempts : ℕ
  pub window_ms : ℕ
  pub by_key : List (Text × Attempts)

pub data Verdict : Type 0 where
  allowed : Verdict
  retry_after : ℕ → Verdict

abbrev pub is_past : Throttle → ℕ → Attempts → Bool
is_past t now r = ltb t.window_ms (now - r.first)

unfoldable pub check_as : Throttle → Text → ℕ → Option Attempts → Throttle × Verdict
check_as t key now none = (t, allowed)
check_as t key now (some r) =
    if is_past t now r
    then (record t { by_key = map_delete t.by_key key }, allowed)
    else if leb t.max_attempts r.count
    then (t, retry_after (t.window_ms - (now - r.first)))
    else (t, allowed)

unfoldable pub check : Throttle → Text → ℕ → Throttle × Verdict
check t key now = check_as t key now (map_get t.by_key key)

unfoldable pub counted : Throttle → ℕ → Option Attempts → Attempts
counted t now none = record { first = now; count = 1 }
counted t now (some r) =
    if is_past t now r then record { first = now; count = 1 } else record r { count = suc r.count }

-- The entries that are past go when there are too many.
unfoldable pub swept : Throttle → ℕ → Throttle
swept t now =
    if ltb 10000 (length t.by_key)
    then record t { by_key = select (λ x. not (is_past t now x.1)) t.by_key }
    else t

unfoldable pub fail : Throttle → Text → ℕ → Throttle
fail t key now =
    swept (record t { by_key = map_set t.by_key key (counted t now (map_get t.by_key key)) }) now

unfoldable pub succeed : Throttle → Text → Throttle
succeed t key = record t { by_key = map_delete t.by_key key }
