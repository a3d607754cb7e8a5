-- ===== src/Jobs/State.antt =====
-- The state of Jobs, panel/lib/jobs.mjs. A job's record is one object that the collection and the
-- queue share, so the queue names it by its id. Logs, events and files are left out.
use forthway_command_center.Base.{
  ℕ, min, Bool, true, false, Option, none, some, List, [], ◌∷◌, ltb, if◌then◌else◌, any, count,
  zero, suc, map_set, Text, text_eq, trim, Value, Number, to_number, round_div, map_get,
}

pub data Status : Type 0 where
  queued running succeeded failed cancelled : Status

pub data Reason : Type 0 where
  panel_restarted restart_dropped cancelled_by_admin stopped stopped_waiting message : Reason

-- The record of a job, as far as the queue reads or writes it.
pub record Job : Type 0 where
  pub status : Status
  pub heavy : Bool
  pub position : Option ℕ
  pub forced : Bool
  pub parent : Option Text
  pub created_at : ℕ
  pub finished : Bool
  pub error : Option Reason

-- What a running job passes on to the jobs that it starts.
pub record Held : Type 0 where
  pub locks : List Text
  pub heavy : Option Text

pub record Waiter : Type 0 where
  pub id : Text
  pub held : Option Held
  pub lock : Option Text
  pub owner : Bool
  pub heavy : Bool
  pub servers : List Text
  pub forced : Bool
  pub on_dropped : Bool

pub record Slot : Type 0 where
  pub servers : List Text
  pub forced : Bool

-- A running job: whether it was asked to stop, its lock, and what it passes on.
pub record Entry : Type 0 where
  pub aborted : Bool
  pub lock : Option Text
  pub owner : Bool
  pub store : Held

-- `dropped` lists the jobs whose `onDropped` has been called, the latest first.
pub record Jobs : Type 0 where
  pub per_server_setting : Value
  pub jobs : List (Text × Job)
  pub waiting : List Waiter
  pub live : List (Text × Entry)
  pub lock_owner : List (Text × Text)
  pub slots : List (Text × Slot)
  pub dropped : List Text

-- `DONE.has(status)`
unfoldable pub is_done : Status → Bool
is_done Status.queued = false
is_done Status.running = false
is_done Status.succeeded = true
is_done Status.failed = true
is_done Status.cancelled = true

abbrev pub queue_default : ℕ
queue_default = 1

abbrev pub queue_max : ℕ
queue_max = 8

abbrev pub max_kept : ℕ
max_kept = 500

unfoldable pub clamp_per_server : Value → ℕ
clamp_per_server v = elim (to_number v) [
  | Number.decimal n ↦
      if ltb (round_div n 1000) 1 then queue_default else min queue_max (round_div n 1000)
  | _ ↦ queue_default
]

unfoldable pub per_server : Jobs → ℕ
per_server s = clamp_per_server s.per_server_setting

unfoldable pub has_text : List Text → Text → Bool
has_text ts t = any (λ u. text_eq u t) ts

-- The names once each, in the order of their first appearance.
unfoldable pub distinct_after : List Text → List Text → List Text
distinct_after seen [] = []
distinct_after seen (t ∷ ts) =
    if has_text seen t then distinct_after seen ts else t ∷ distinct_after (t ∷ seen) ts

is_empty : Text → Bool
is_empty [] = true
is_empty (c ∷ t) = false

unfoldable pub trimmed : List Text → List Text
unfolding is_empty
trimmed [] = []
trimmed (t ∷ ts) = if is_empty (trim t) then trimmed ts else trim t ∷ trimmed ts

unfoldable pub take_first {ℓ} : {A : Type ℓ} → ℕ → List A → List A
take_first zero xs = []
take_first (suc n) [] = []
take_first (suc n) (x ∷ xs) = x ∷ take_first n xs

unfoldable pub or_fallback : Text → List Text → List Text
or_fallback t [] = t ∷ []
or_fallback t (x ∷ xs) = x ∷ xs

-- The servers that a heavy job loads. A single value is a list of one.
unfoldable pub server_list : List Text → Text → List Text
unfolding distinct_after trimmed or_fallback
server_list ts fallback = or_fallback fallback (take_first 32 (distinct_after [] (trimmed ts)))

-- A record that the collection no longer has was pruned, and so done.
unfoldable pub is_over : Jobs → Text → Bool
is_over s id = elim (map_get s.jobs id) [ none ↦ true | some j ↦ is_done j.status ]

unfoldable pub loads : Text → Slot → Bool
loads server x = has_text x.servers server

-- `_used`
unfoldable pub used : Jobs → Text → ℕ
used s server = count (λ x. loads server x.1) s.slots

-- The lock is some running job's.
unfoldable pub is_locked : Jobs → Option Text → Bool
is_locked s none = false
is_locked s (some l) = elim (map_get s.lock_owner l) [ none ↦ false | some _ ↦ true ]

unfoldable pub in_locks : List Text → Option Text → Bool
in_locks ls none = false
in_locks ls (some l) = has_text ls l

change_job : (Job → Job) → Option Job → Text → List (Text × Job) → List (Text × Job)
change_job f none id js = js
change_job f (some j) id js = map_set js id (f j)

-- A change of a record, wherever it is kept.
unfoldable pub update_job : Jobs → Text → (Job → Job) → Jobs
unfolding change_job
update_job s id f = record s { jobs = change_job f (map_get s.jobs id) id s.jobs }
