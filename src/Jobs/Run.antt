-- ===== src/Jobs/Run.antt =====
-- Everything that can happen to Jobs (panel/lib/jobs.mjs) while a panel runs, in any order.
use forthway_command_center.Base.{
  ℕ, ◌≤◌, ◌≡◌, Bool, true, Option, some, [], arith, Text, Value, map_get, count, subst,
}
use forthway_command_center.Jobs.State.{Jobs, Held, Entry, queue_max}
use forthway_command_center.Jobs.Life.{Meta, start, returned, cancel, grace_over, shutdown}
use forthway_command_center.Jobs.Control.{Place, done, move, force_start, set_per_server}
use forthway_command_center.Jobs.Admit.{pump}
use forthway_command_center.Jobs.Tables.{IsSafe, claims}
use forthway_command_center.Jobs.Sound.{pump-IsSafe}
use forthway_command_center.Jobs.Operations.{
  AnsweredSafe, start-IsSafe, returned-IsSafe, cancel-IsSafe, grace_over-IsSafe, shutdown-IsSafe,
  move-IsSafe, force_start-IsSafe, set_per_server-IsSafe,
}

-- `restarted` begins anew with the jobs of the collection, which `recover` has settled.
pub data Event (s : Jobs) : Jobs → Type 0 where
  started : (m : Meta) (held : Option Held) (id : Text) (now : ℕ) → Event s (start s m held id now)
  ended : (id : Text) (good : Bool) → Event s (returned s id good)
  cancelled_one : (id : Text) → Event s (cancel s id)
  gave_up : (id : Text) → Event s (grace_over s id)
  moved : {t : Jobs} (id : Text) (place : Place) → move s id place ≡ done t → Event s t
  forced_one : {t : Jobs} (id : Text) → force_start s id ≡ done t → Event s t
  limited : (v : Value) → Event s (set_per_server s v)
  configured : (v : Value) → Event s (pump (record s { per_server_setting = v }))
  stopped_all : Event s (shutdown s)

-- The constructor's state, with the jobs of an earlier run.
abbrev pub fresh_jobs : Jobs → Jobs
fresh_jobs s = record s { waiting = []; live = []; lock_owner = []; slots = []; dropped = [] }

pub data Run : Jobs → Type 0 where
  boot : (s : Jobs) → Run (fresh_jobs s)
  then : {s t : Jobs} → Run s → Event s t → Run t

Event-IsSafe : {s t : Jobs} → Event s t → IsSafe s → IsSafe t
Event-IsSafe {s} (started m held id now) h = start-IsSafe s m held id now h
Event-IsSafe {s} (ended id good) h = returned-IsSafe s id good h
Event-IsSafe {s} (cancelled_one id) h = cancel-IsSafe s id h
Event-IsSafe {s} (gave_up id) h = grace_over-IsSafe s id h
Event-IsSafe {s} (moved id place e) h = subst AnsweredSafe e (move-IsSafe s id place h)
Event-IsSafe {s} (forced_one id e) h = subst AnsweredSafe e (force_start-IsSafe s id h)
Event-IsSafe {s} (limited v) h = set_per_server-IsSafe s v h
Event-IsSafe {s} (configured v) h = pump-IsSafe (record s { per_server_setting = v }) h
Event-IsSafe {s} stopped_all h = shutdown-IsSafe s h

pub Run-IsSafe : {s : Jobs} → Run s → IsSafe s
unfolding map_get
Run-IsSafe (boot s) = record {
  within = λ server. omega arith;
  owned = λ id l e g o k. cc;
  live_map = tt;
  owner_map = tt;
}
Run-IsSafe (then r e) = Event-IsSafe e (Run-IsSafe r)

-- At no time of a run do more than eight jobs that were not forced hold a slot of one server,
-- however often the limit changes and whatever else happens.
pub claims_bound : {s : Jobs} → Run s → (server : Text) → count (claims server) s.slots ≤ queue_max
claims_bound r server = (Run-IsSafe r).within server

-- A running job that holds a lock for itself, not under its starter's.
pub record Holds (s : Jobs) (l id : Text) : Type 0 where
  pub entry : Entry
  pub live : map_get s.live id ≡ some entry
  pub owner : entry.owner ≡ true
  pub lock : entry.lock ≡ some l

-- At no time of a run do two jobs run that hold one lock for themselves.
pub one_holder : {s : Jobs} → Run s → (l i j : Text) → Holds s l i → Holds s l j → i ≡ j
one_holder r l i j a b =
    let h = Run-IsSafe r in
    cc (h.owned i l a.entry a.live a.owner a.lock, h.owned j l b.entry b.live b.owner b.lock)
