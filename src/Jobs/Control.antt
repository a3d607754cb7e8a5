-- ===== src/Jobs/Control.antt =====
-- What an admin does to the queue: move, forceStart and setPerServer of panel/lib/jobs.mjs.
use forthway_command_center.Base.{
  ℕ, ◌+◌, ◌-◌, min, zero, suc, true, ◌&&◌, Option, none, some, List, [], ◌∷◌, ◌==◌, if◌then◌else◌,
  length, select, find_first, Text, text_eq, whole, Value,
}
use forthway_command_center.Jobs.State.{Jobs, Waiter, clamp_per_server, is_locked, update_job}
use forthway_command_center.Jobs.Admit.{pump, unqueue, begin}

pub data QueueError : Type 0 where
  not_waiting not_queued bad_move locked : QueueError

pub data Answer : Type 0 where
  done : Jobs → Answer
  refused : QueueError → Answer

-- Where to: `to`, or `index` as an integer below 0 or not, or anything else.
pub data Place : Type 0 where
  top bottom up down below_zero nowhere : Place
  at : ℕ → Place

abbrev pub heavy_waiters : List Waiter → List Waiter
heavy_waiters ws = select (λ w. w.heavy) ws

abbrev pub index_of : Text → List Waiter → ℕ
index_of id [] = 0
index_of id (w ∷ ws) = if text_eq w.id id then 0 else suc (index_of id ws)

-- `splice(from, 1)` and `splice(dest, 0, w)`
abbrev pub insert_at : ℕ → Waiter → List Waiter → List Waiter
insert_at zero w ws = w ∷ ws
insert_at (suc n) w [] = w ∷ []
insert_at (suc n) w (x ∷ ws) = x ∷ insert_at n w ws

-- The entry at a place, and the list without it.
abbrev pub pick : ℕ → List Waiter → Option (Waiter × List Waiter)
pick n [] = none
pick zero (w ∷ ws) = some (w, ws)
pick (suc n) (w ∷ ws) = elim (pick n ws) [ none ↦ none | some (x, rest) ↦ some (x, w ∷ rest) ]

unfoldable pub relocate : ℕ → ℕ → List Waiter → List Waiter
relocate from dest ws = elim (pick from ws) [ none ↦ ws | some (w, rest) ↦ insert_at dest w rest ]

-- The heavy waiters go to the spots of the heavy ones, in their new order.
unfoldable pub fill : List Waiter → List Waiter → List Waiter
fill [] hs = []
fill (w ∷ ws) [] = w ∷ ws
fill (w ∷ ws) (h ∷ hs) =
    let rest = fill ws (if w.heavy then hs else h ∷ hs) in (if w.heavy then h else w) ∷ rest

-- The clamped destination of the waiter at place `from` among `n`.
unfoldable pub destination : Place → ℕ → ℕ → Option ℕ
destination Place.top from n = some 0
destination Place.bottom from n = some (n - 1)
destination Place.up from n = some (from - 1)
destination Place.down from n = some (min (n - 1) (from + 1))
destination Place.below_zero from n = some 0
destination Place.nowhere from n = none
destination (Place.at index) from n = some (min (n - 1) index)

unfoldable pub move_to : Jobs → ℕ → Option ℕ → Answer
move_to s from none = refused bad_move
move_to s from (some dest) =
    if dest == from
    then done s
    else done (
        pump (record s { waiting = fill s.waiting (relocate from dest (heavy_waiters s.waiting)) }))

-- `_waitingHeavy`
unfoldable pub waiting_heavy : Option Waiter → (Waiter → Answer) → Answer
waiting_heavy none go = refused not_waiting
waiting_heavy (some w) go = if w.heavy then go w else refused not_queued

unfoldable pub move : Jobs → Text → Place → Answer
unfolding move_to waiting_heavy
move s id place = waiting_heavy (find_first (λ w. text_eq w.id id) s.waiting) (λ w.
    let heavy = heavy_waiters s.waiting in
    move_to s (index_of id heavy) (destination place (index_of id heavy) (length heavy)))

unfoldable pub force_start : Jobs → Text → Answer
unfolding waiting_heavy
force_start s id = waiting_heavy (find_first (λ w. text_eq w.id id) s.waiting) (λ w.
    if w.owner && is_locked s w.lock
    then refused locked
    else done (
        pump (
          begin (update_job (unqueue s id) id (λ j. record j { forced = true }))
            (record w { forced = true }))))

unfoldable pub set_per_server : Jobs → Value → Jobs
set_per_server s v = pump (record s { per_server_setting = whole (clamp_per_server v) })
