-- ===== src/Jobs/Checks.antt =====
-- The theorems on the job queue at concrete inputs.
use forthway_command_center.Base.{
  ◌≤◌, ◌≡◌, refl, max, Bool, true, false, none, some, List, [], ◌∷◌, Text, codes, text_eq, whole,
  count, any, map_get, map_set,
}
use forthway_command_center.Jobs.State.{
  is_done, loads, Jobs, Job, Status, Waiter, queue_max, used, per_server, is_over, has_text,
  is_locked, in_locks, update_job,
}
use forthway_command_center.Jobs.Admit.{
  first_round, pump, admit, admit_one, slots_free, lock_free, begin, unqueue, run, store_of,
  sync_positions, number_from,
}
use forthway_command_center.Jobs.Life.{
  Meta, default_lock, named, start, lock_of, inherited, waiter_of, job_of, prune, recover,
}
use forthway_command_center.Jobs.Tables.{claims}
use forthway_command_center.Jobs.Run.{Run, boot, then, started, Holds, claims_bound, one_holder}
use forthway_command_center.Jobs.Order.{starts, no_overtaking_lock, no_overtaking_server}
use forthway_command_center.Jobs.Slots.{pump-used}
use forthway_command_center.Jobs.Progress.{is_live, pump-is_live}
use forthway_command_center.Jobs.Records.{Recovers, recover-Recovers}

abbrev main : Text
main = codes "main"

-- A job that installs a website, twice on the same one.
abbrev deploy : Meta
deploy = record {
  heavy = true;
  servers = main ∷ [];
  fallback = main;
  lock = default_lock;
  site_id = some (codes "s");
  database_id = none;
  on_dropped = false;
}

abbrev nothing : Jobs
nothing = record {
  per_server_setting = whole 1;
  jobs = [];
  waiting = [];
  live = [];
  lock_owner = [];
  slots = [];
  dropped = [];
}

abbrev one : Jobs
one = start nothing deploy none (codes "a") 1

abbrev two : Jobs
two = start one deploy none (codes "b") 2

ran : Run two
ran =
    then (then (boot nothing) (started deploy none (codes "a") 1))
      (started deploy none (codes "b") 2)

claims_bound_example : count (claims main) two.slots ≤ queue_max
claims_bound_example = claims_bound ran main

-- A light job that takes a lock.
abbrev light : Jobs
light = start nothing (record deploy { heavy = false; lock = named (codes "k") }) none (codes "a") 1

light_ran : Run light
light_ran =
    then (boot nothing)
      (started (record deploy { heavy = false; lock = named (codes "k") }) none (codes "a") 1)

light-Holds : Holds light (codes "k") (codes "a")
unfolding start map_get pump sync_positions number_from admit prune map_set admit_one is_over
    text_eq waiter_of is_done job_of lock_of is_locked in_locks has_text begin lock_free run
    slots_free store_of unqueue inherited update_job
light-Holds = record {
  entry = record {
    aborted = false;
    lock = some (codes "k");
    owner = true;
    store = record { locks = codes "k" ∷ []; heavy = none };
  };
  live = refl;
  owner = refl;
  lock = refl;
}

one_holder_example : ◌≡◌ {A = Text} (codes "a") (codes "a")
one_holder_example =
    one_holder light_ran (codes "k") (codes "a") (codes "a") light-Holds light-Holds

pump-used_example : used (pump two) main ≤ max (used two main) (per_server two)
pump-used_example = pump-used two main

abbrev waiter : Text → Bool → Waiter
waiter id heavy = record {
  id = id;
  held = none;
  lock = some (codes "site:s");
  owner = true;
  heavy = heavy;
  servers = main ∷ [];
  forced = false;
  on_dropped = false;
}

abbrev queued_job : Job
queued_job = record {
  status = Status.queued;
  heavy = true;
  position = some 1;
  forced = false;
  parent = none;
  created_at = 1;
  finished = false;
  error = none;
}

-- A running job has the lock and the only slot, and job b waits.
abbrev busy : Jobs
busy = record nothing {
  jobs = (codes "b", queued_job) ∷ [];
  waiting = waiter (codes "b") true ∷ waiter (codes "c") true ∷ [];
  lock_owner = (codes "site:s", codes "a") ∷ [];
  slots = (codes "a", record { servers = main ∷ []; forced = false }) ∷ [];
}

no_overtaking_lock_example :
    starts 1
      (waiter (codes "c") true)
      (admit 1 [] (admit_one 1 (waiter (codes "b") true) (first_round busy)))
    ≡ false
unfolding is_over lock_free map_get text_eq is_done is_locked
no_overtaking_lock_example =
    no_overtaking_lock 1 [] (waiter (codes "b") true) (waiter (codes "c") true) (first_round busy)
      (codes "site:s") refl refl refl refl refl refl

no_overtaking_server_example :
    starts 1
      (waiter (codes "c") true)
      (admit 1 [] (admit_one 1 (waiter (codes "b") true) (first_round busy)))
    ≡ false
unfolding is_over slots_free has_text map_get text_eq is_done used loads
no_overtaking_server_example =
    no_overtaking_server 1 [] (waiter (codes "b") true) (waiter (codes "c") true) (first_round busy)
      main refl refl refl refl refl

abbrev line : List Waiter
line = waiter (codes "b") true ∷ waiter (codes "l") false ∷ waiter (codes "c") true ∷ []

recover-Recovers_example :
    (r : Job) × (map_get (recover busy.jobs) (codes "b") ≡ some r) × Recovers queued_job r
unfolding map_get text_eq
recover-Recovers_example = recover-Recovers busy.jobs (codes "b") queued_job refl

-- The running job is over, and so is the first that waits.
abbrev freed : Jobs
freed = record busy {
  lock_owner = [];
  slots = [];
  waiting = waiter (codes "gone") true ∷ waiter (codes "b") true ∷ waiter (codes "c") true ∷ [];
}

pump-is_live_example : any (λ w. is_live (pump freed) w.id) freed.waiting ≡ true
unfolding is_over map_get text_eq is_done
pump-is_live_example = pump-is_live freed refl refl refl
