-- ===== src/Jobs/Admit.antt =====
-- Admission to the queue: _pump, _unqueue, _begin and _syncPositions of panel/lib/jobs.mjs. A job's
-- function runs later, so nothing pumps again while a pump is under way: one round is all.
use forthway_command_center.Base.{
  ℕ, ◌+◌, Bool, false, not, ◌&&◌, ◌||◌, Option, none, some, List, [], ◌∷◌, ◌++◌, ltb, if◌then◌else◌,
  all, Text, text_eq, map_set,
}
use forthway_command_center.Jobs.State.{
  Jobs, Status, Held, Waiter, Slot, per_server, has_text, is_over, used, is_locked, in_locks,
  update_job,
}

abbrev pub without : Text → List Waiter → List Waiter
without id [] = []
without id (w ∷ ws) = if text_eq w.id id then ws else w ∷ without id ws

-- `_unqueue`: the first waiter with this id leaves the queue.
unfoldable pub unqueue : Jobs → Text → Jobs
unqueue s id = record s { waiting = without id s.waiting }

abbrev held_locks : Option Held → List Text
held_locks none = []
held_locks (some h) = h.locks

abbrev held_heavy : Option Held → Option Text
held_heavy none = none
held_heavy (some h) = h.heavy

abbrev with_lock : Option Text → List Text → List Text
with_lock none ls = ls
with_lock (some l) ls = l ∷ ls

-- What a job passes on: the locks of its starter and its own, and the heavy job whose slots it uses.
unfoldable pub store_of : Waiter → Held
store_of w = record {
  locks = with_lock w.lock (held_locks w.held);
  heavy = if w.heavy then some w.id else held_heavy w.held;
}

-- `_run`, up to the start of the function.
unfoldable pub run : Jobs → Waiter → Jobs
unfolding store_of
run s w =
    update_job
      (record s {
        live =
            map_set s.live w.id
              (record { aborted = false; lock = w.lock; owner = w.owner; store = store_of w });
      })
      w.id
      (λ j. record j { status = Status.running; position = if j.heavy then none else j.position })

abbrev pub own_lock : Waiter → List (Text × Text) → List (Text × Text)
own_lock w m = elim w.lock [ none ↦ m | some l ↦ if w.owner then map_set m l w.id else m ]

abbrev pub take_slot : Waiter → List (Text × Slot) → List (Text × Slot)
take_slot w m =
    if w.heavy then map_set m w.id (record { servers = w.servers; forced = w.forced }) else m

-- `_begin`
unfoldable pub begin : Jobs → Waiter → Jobs
unfolding run
begin s w = run (record s { lock_owner = own_lock w s.lock_owner; slots = take_slot w s.slots }) w

unfoldable pub lock_free : Jobs → List Text → Waiter → Bool
lock_free s locks w = not w.owner || (not (is_locked s w.lock) && not (in_locks locks w.lock))

unfoldable pub slots_free : Jobs → ℕ → List Text → Waiter → Bool
slots_free s limit servers w =
    not w.heavy || all (λ x. not (has_text servers x) && ltb (used s x) limit) w.servers

abbrev pub block_lock : Waiter → List Text → List Text
block_lock w locks = elim w.lock [ none ↦ locks | some l ↦ if w.owner then l ∷ locks else locks ]

abbrev pub block_servers : Bool → Waiter → List Text → List Text
block_servers free w servers = if w.heavy && not free then w.servers ++ servers else servers

-- A round so far: the locks and the servers that earlier waiters reserve, and the state.
pub record Round : Type 0 where
  pub locks : List Text
  pub servers : List Text
  pub jobs : Jobs

-- One waiter: it leaves the queue, starts, or reserves what it waits for.
unfoldable pub admit_one : ℕ → Waiter → Round → Round
unfolding lock_free slots_free
admit_one limit w r =
    let free = slots_free r.jobs limit r.servers w in
    if is_over r.jobs w.id
    then record r { jobs = unqueue r.jobs w.id }
    else if lock_free r.jobs r.locks w && free
    then record r { jobs = begin (unqueue r.jobs w.id) w }
    else record r { locks = block_lock w r.locks; servers = block_servers free w r.servers }

-- One round over a copy of the queue.
unfoldable pub admit : ℕ → List Waiter → Round → Round
admit limit [] r = r
admit limit (w ∷ ws) r = admit limit ws (admit_one limit w r)

abbrev pub first_round : Jobs → Round
first_round s = record { locks = []; servers = []; jobs = s }

-- `_syncPositions`: heavy waiters count from 1.
unfoldable pub number_from : ℕ → List Waiter → Jobs → Jobs
number_from n [] s = s
number_from n (w ∷ ws) s =
    if w.heavy
    then number_from (n + 1) ws (update_job s w.id (λ j. record j { position = some (n + 1) }))
    else number_from n ws s

unfoldable pub sync_positions : Jobs → Jobs
sync_positions s = number_from 0 s.waiting s

unfoldable pub pump : Jobs → Jobs
pump s = sync_positions (admit (per_server s) s.waiting (first_round s)).jobs
