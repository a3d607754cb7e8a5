-- ===== src/Jobs/Life.antt =====
-- The life of a job: start, _finish, cancel, recover and shutdown of panel/lib/jobs.mjs, with
-- _prune. Ids are new and times are numbers that the caller passes in.
use forthway_command_center.Base.{
  ℕ, ◌-◌, Bool, true, false, not, ◌&&◌, Option, none, some, List, [], ◌∷◌, ◌++◌, leb, if◌then◌else◌,
  length, select, find_first, Text, codes, text_eq, map_set, map_get, map_delete,
}
use forthway_command_center.Jobs.State.{
  Jobs, Job, Status, Reason, Held, Waiter, Entry, is_done, max_kept, has_text, update_job,
  server_list, take_first,
}
use forthway_command_center.Jobs.Admit.{pump, unqueue}

abbrev insert_by_age : Text × Job → List (Text × Job) → List (Text × Job)
insert_by_age x [] = x ∷ []
insert_by_age x (y ∷ ys) =
    let rest = insert_by_age x ys in
    if leb x.1.created_at y.1.created_at then x ∷ y ∷ ys else y ∷ rest

abbrev by_age : List (Text × Job) → List (Text × Job)
by_age [] = []
by_age (x ∷ xs) = insert_by_age x (by_age xs)

abbrev drop_ids : List (Text × Job) → List (Text × Job) → List (Text × Job)
drop_ids [] js = js
drop_ids (x ∷ xs) js = drop_ids xs (map_delete js x.0)

-- `_prune`: the oldest jobs that are done go, down to the number that is kept.
unfoldable pub prune : Jobs → Jobs
prune s = if leb (length s.jobs) max_kept then s else record s {
  jobs =
      drop_ids
        (take_first (length s.jobs - max_kept) (by_age (select (λ x. is_done x.1.status) s.jobs)))
        s.jobs;
}

abbrev pub is_owner : Option Text → Text → Bool
is_owner none id = false
is_owner (some o) id = text_eq o id

abbrev pub release_lock : Option Entry → Text → List (Text × Text) → List (Text × Text)
release_lock none id m = m
release_lock (some e) id m = elim e.lock [
  | none ↦ m
  | some l ↦ if e.owner && is_owner (map_get m l) id then map_delete m l else m
]

-- What `_finish` does to a job that is not settled yet, before the queue moves on.
unfoldable pub settle : Jobs → Text → Status → Option Reason → Jobs
settle s id status error =
    let t = update_job s id (λ j. record j {
      status = status;
      error = error;
      finished = true;
      position = if j.heavy then none else j.position;
    }) in
    record t {
      live = map_delete s.live id;
      lock_owner = release_lock (map_get s.live id) id s.lock_owner;
      slots = map_delete s.slots id;
    }

finish_job : Jobs → Text → Status → Option Reason → Option Job → Jobs
unfolding settle
finish_job s id status error none = s
finish_job s id status error (some j) =
    if is_done j.status then s else prune (pump (settle s id status error))

-- `_finish`
unfoldable pub finish : Jobs → Text → Status → Option Reason → Jobs
unfolding finish_job
finish s id status error = finish_job s id status error (map_get s.jobs id)

-- The function of a job has returned, or thrown.
finish_entry : Jobs → Text → Bool → Option Entry → Jobs
finish_entry s id good none = s
finish_entry s id good (some e) =
    if e.aborted
    then finish s id Status.cancelled (some Reason.cancelled_by_admin)
    else if good
    then finish s id Status.succeeded none
    else finish s id Status.failed (some Reason.message)

unfoldable pub returned : Jobs → Text → Bool → Jobs
unfolding finish_entry
returned s id good = finish_entry s id good (map_get s.live id)

-- `meta.lock`: false, a key, or left out.
pub data LockOption : Type 0 where
  off default_lock : LockOption
  named : Text → LockOption

-- What `start` is told. `fallback` is `meta.serverId || "main"`.
pub record Meta : Type 0 where
  pub heavy : Bool
  pub servers : List Text
  pub fallback : Text
  pub lock : LockOption
  pub site_id : Option Text
  pub database_id : Option Text
  pub on_dropped : Bool

lock_by_default : Option Text → Option Text → Option Text
lock_by_default (some i) database_id = some (codes "site:" ++ i)
lock_by_default none (some i) = some (codes "database:" ++ i)
lock_by_default none none = none

unfoldable pub lock_of : Meta → Option Text
unfolding lock_by_default
lock_of m = elim m.lock [
  | LockOption.off ↦ none
  | LockOption.default_lock ↦ lock_by_default m.site_id m.database_id
  | LockOption.named [] ↦ lock_by_default m.site_id m.database_id
  | LockOption.named (c ∷ key) ↦ some (c ∷ key)
]

-- The heavy job under whose slots a heavy job runs.
unfoldable pub inherited : Meta → Option Held → Option Text
inherited m none = none
inherited m (some h) = if m.heavy then h.heavy else none

holds : Option Held → Option Text → Bool
holds none l = false
holds (some h) none = false
holds (some h) (some l) = has_text h.locks l

is_some_text : Option Text → Bool
is_some_text none = false
is_some_text (some t) = true

unfoldable pub waiter_of : Meta → Option Held → Text → Waiter
unfolding holds is_some_text
waiter_of m held id = record {
  id = id;
  held = held;
  lock = lock_of m;
  owner = is_some_text (lock_of m) && not (holds held (lock_of m));
  heavy = m.heavy && not (is_some_text (inherited m held));
  servers = if m.heavy then server_list m.servers m.fallback else [];
  forced = false;
  on_dropped = m.on_dropped;
}

unfoldable pub job_of : Meta → Option Held → ℕ → Job
job_of m held now = record {
  status = Status.queued;
  heavy = m.heavy;
  position = none;
  forced = false;
  parent = inherited m held;
  created_at = now;
  finished = false;
  error = none;
}

-- `start`, for a job that a job with the store `held` starts, if any.
unfoldable pub start : Jobs → Meta → Option Held → Text → ℕ → Jobs
start s m held id now =
    let t = prune (record s { jobs = map_set s.jobs id (job_of m held now) }) in
    pump (record t { waiting = t.waiting ++ waiter_of m held id ∷ [] })

-- `_dropped`
unfoldable pub drop_waiter : Option Waiter → Jobs → Jobs
drop_waiter none s = s
drop_waiter (some w) s = if w.on_dropped then record s { dropped = w.id ∷ s.dropped } else s

abort_entry : Jobs → Text → Option Entry → Jobs
abort_entry s id none = s
abort_entry s id (some e) = record s { live = map_set s.live id (record e { aborted = true }) }

unfoldable pub cancel_as : Jobs → Text → Status → Jobs
unfolding abort_entry
cancel_as s id Status.queued =
    finish (drop_waiter (find_first (λ w. text_eq w.id id) s.waiting) (unqueue s id)) id
      Status.cancelled (some Reason.cancelled_by_admin)
cancel_as s id Status.running = abort_entry s id (map_get s.live id)
cancel_as s id _ = s

-- `cancel`: a queued job ends at once, a running one is asked to stop.
unfoldable pub cancel : Jobs → Text → Jobs
cancel s id = elim (map_get s.jobs id) [ none ↦ s | some j ↦ cancel_as s id j.status ]

-- The grace period of a job that was asked to stop is over. The timer is gone once the job is.
unfoldable pub grace_over : Jobs → Text → Jobs
grace_over s id = elim (map_get s.live id) [
  | none ↦ s
  | some e ↦ finish s id Status.cancelled (some Reason.cancelled_by_admin)
]

unfoldable pub recovered : Job → Job
recovered j = if is_done j.status then j else elim j.status [
  | Status.queued ↦
      if j.heavy
      then record j {
        status = Status.cancelled;
        error = some Reason.restart_dropped;
        position = none;
        finished = true;
      }
      else record j { status = Status.failed; error = some Reason.panel_restarted; finished = true }
  | _ ↦ record j { status = Status.failed; error = some Reason.panel_restarted; finished = true }
]

-- `recover`, at boot: nothing that was going on still is.
unfoldable pub recover : List (Text × Job) → List (Text × Job)
unfolding recovered
recover [] = []
recover ((id, j) ∷ js) = (id, recovered j) ∷ recover js

-- `shutdown`: what waits ends without having run, what runs is aborted.
unfoldable pub interrupt : Waiter → Jobs → Jobs
interrupt w s = drop_waiter (some w) (
    update_job s w.id (λ j.
      if w.heavy
      then record j {
        status = Status.cancelled;
        error = some Reason.stopped_waiting;
        position = none;
        finished = true;
      }
      else record j { status = Status.failed; error = some Reason.stopped; finished = true }))

unfoldable pub interrupt_all : List Waiter → Jobs → Jobs
unfolding interrupt
interrupt_all [] s = s
interrupt_all (w ∷ ws) s = interrupt_all ws (interrupt w s)

unfoldable pub finish_all : List (Text × Entry) → Jobs → Jobs
finish_all [] s = s
finish_all ((id, e) ∷ es) s = finish_all es (finish s id Status.failed (some Reason.stopped))

unfoldable pub shutdown : Jobs → Jobs
unfolding interrupt_all finish_all
shutdown s = finish_all s.live (interrupt_all s.waiting (record s { waiting = [] }))
