-- ===== src/Jobs/Operations.antt =====
-- The operations of Jobs on a job, panel/lib/jobs.mjs, keep the tables sound.
use forthway_command_center.Base.{
  ℕ, ◌≡◌, sym, subst, inl, inr, Bool, true, ◌&&◌, Option, none, some, List, [], ◌∷◌, leb, ◌==◌,
  length, if◌then◌else◌, arith, find_first, Value, Text, text_eq, text_eq_iff, map_set, map_get,
  map_get-map_set, map_set-IsMap, Bool-cases, Option-cases,
}
use forthway_command_center.Jobs.State.{
  Jobs, Status, Held, Waiter, Slot, Entry, is_done, max_kept, is_locked, update_job,
}
use forthway_command_center.Jobs.Admit.{unqueue}
use forthway_command_center.Jobs.Tables.{IsSound, IsSafe, begin-IsSound}
use forthway_command_center.Jobs.Life.{
  cancel_as, interrupt, interrupt_all, finish_all, prune, finish, returned, start, cancel,
  grace_over, shutdown, drop_waiter, Meta,
}
use forthway_command_center.Jobs.Control.{
  Place, Answer, done, refused, move_to, waiting_heavy, not_queued, heavy_waiters, index_of,
  destination, move, force_start, set_per_server,
}
use forthway_command_center.Jobs.State.{Reason}
use forthway_command_center.Jobs.Sound.{pump-IsSafe, settle-IsSafe}

prune-IsSafe : (s : Jobs) → IsSafe s → IsSafe (prune s)
unfolding prune
prune-IsSafe s h = elim (Bool-cases (leb (length s.jobs) max_kept)) [
  | inl few ↦ rw few h
  | inr many ↦ rw many h
]

pub finish-IsSafe :
    (s : Jobs) (id : Text) (status : Status) (error : Option Reason)
    → IsSafe s
    → IsSafe (finish s id status error)
unfolding finish
finish-IsSafe s id status error h = elim (Option-cases (map_get s.jobs id)) [
  | inl e ↦ rw e h
  | inr (j, e) ↦ elim (Bool-cases (is_done j.status)) [
    | inl over ↦ rw (e, over) h
    | inr on ↦ rw (e, on) (prune-IsSafe _ (pump-IsSafe _ (settle-IsSafe s id status error h)))
  ]
]

pub start-IsSafe :
    (s : Jobs) (m : Meta) (held : Option Held) (id : Text) (now : ℕ)
    → IsSafe s
    → IsSafe (start s m held id now)
unfolding start
start-IsSafe s m held id now h = pump-IsSafe _ (prune-IsSafe _ h)

drop_waiter-IsSafe : (w : Option Waiter) (s : Jobs) → IsSafe s → IsSafe (drop_waiter w s)
unfolding drop_waiter
drop_waiter-IsSafe none s h = h
drop_waiter-IsSafe (some w) s h = elim (Bool-cases w.on_dropped) [ inl e ↦ rw e h | inr e ↦ rw e h ]

-- Asking a running job to stop changes nothing but its entry's flag.
abort-IsSound :
    (slots : List (Text × Slot)) (owners : List (Text × Text)) (live : List (Text × Entry))
    (id : Text) (e : Entry)
    → map_get live id ≡ some e
    → IsSound slots owners live
    → IsSound slots owners (map_set live id (record e { aborted = true }))
abort-IsSound slots owners live id e g h = record {
  within = h.within;
  owned = λ j l f a o k. elim (Bool-cases (text_eq id j)) [
    | inl same ↦ ground (
      arith,
      map_get-map_set live id j (record e { aborted = true }),
      (text_eq_iff id j).0 same,
      h.owned id l e g,
    )
    | inr other ↦
        h.owned j l f (ground (arith, map_get-map_set live id j (record e { aborted = true }))) o k
  ];
  live_map = map_set-IsMap live id _ h.live_map;
  owner_map = h.owner_map;
}

cancel_as-IsSafe : (s : Jobs) (id : Text) (st : Status) → IsSafe s → IsSafe (cancel_as s id st)
unfolding cancel_as unqueue
cancel_as-IsSafe s id Status.queued h =
    finish-IsSafe _ id Status.cancelled (some Reason.cancelled_by_admin)
      (drop_waiter-IsSafe (find_first (λ w. text_eq w.id id) s.waiting) _ h)
cancel_as-IsSafe s id Status.running h = elim (Option-cases (map_get s.live id)) [
  | inl e ↦ rw (e, cancel_as) h
  | inr (f, e) ↦ rw (e, cancel_as) (abort-IsSound s.slots s.lock_owner s.live id f e h)
]
cancel_as-IsSafe s id Status.succeeded h = h
cancel_as-IsSafe s id Status.failed h = h
cancel_as-IsSafe s id Status.cancelled h = h

pub cancel-IsSafe : (s : Jobs) (id : Text) → IsSafe s → IsSafe (cancel s id)
unfolding cancel
cancel-IsSafe s id h = elim (Option-cases (map_get s.jobs id)) [
  | inl e ↦ rw (e, cancel) h
  | inr (j, e) ↦ rw (e, cancel) (cancel_as-IsSafe s id j.status h)
]

pub grace_over-IsSafe : (s : Jobs) (id : Text) → IsSafe s → IsSafe (grace_over s id)
unfolding grace_over
grace_over-IsSafe s id h = elim (Option-cases (map_get s.live id)) [
  | inl e ↦ rw (e, grace_over) h
  | inr (f, e) ↦
      rw (e, grace_over) (finish-IsSafe s id Status.cancelled (some Reason.cancelled_by_admin) h)
]

pub returned-IsSafe : (s : Jobs) (id : Text) (good : Bool) → IsSafe s → IsSafe (returned s id good)
unfolding returned
returned-IsSafe s id good h = elim (Option-cases (map_get s.live id)) [
  | inl e ↦ rw e h
  | inr (f, e) ↦ elim (Bool-cases f.aborted) [
    | inl a ↦ rw (e, a) (finish-IsSafe s id Status.cancelled (some Reason.cancelled_by_admin) h)
    | inr a ↦ elim (Bool-cases good) [
      | inl g ↦ rw (e, a, g) (finish-IsSafe s id Status.succeeded none h)
      | inr g ↦ rw (e, a, g) (finish-IsSafe s id Status.failed (some Reason.message) h)
    ]
  ]
]

interrupt_all-IsSafe : (ws : List Waiter) (s : Jobs) → IsSafe s → IsSafe (interrupt_all ws s)
unfolding interrupt_all interrupt update_job
interrupt_all-IsSafe [] s h = h
interrupt_all-IsSafe (w ∷ ws) s h = interrupt_all-IsSafe ws _ (drop_waiter-IsSafe (some w) _ h)

finish_all-IsSafe : (es : List (Text × Entry)) (s : Jobs) → IsSafe s → IsSafe (finish_all es s)
unfolding finish_all
finish_all-IsSafe [] s h = h
finish_all-IsSafe ((id, e) ∷ es) s h =
    finish_all-IsSafe es _ (finish-IsSafe s id Status.failed (some Reason.stopped) h)

pub shutdown-IsSafe : (s : Jobs) → IsSafe s → IsSafe (shutdown s)
unfolding shutdown
shutdown-IsSafe s h = finish_all-IsSafe s.live _ (interrupt_all-IsSafe s.waiting _ h)

pub set_per_server-IsSafe : (s : Jobs) (v : Value) → IsSafe s → IsSafe (set_per_server s v)
unfolding set_per_server
set_per_server-IsSafe s v h = pump-IsSafe _ h

-- What an admin asked for keeps the tables sound, when it is not refused.
abbrev pub AnsweredSafe : Answer → Type 0
AnsweredSafe (done t) = IsSafe t
AnsweredSafe (refused why) = Unit

move_to-IsSafe :
    (s : Jobs) (from : ℕ) (dest : Option ℕ) → IsSafe s → AnsweredSafe (move_to s from dest)
unfolding move_to
move_to-IsSafe s from none h = tt
move_to-IsSafe s from (some dest) h = elim (Bool-cases (dest == from)) [
  | inl e ↦ rw e h
  | inr e ↦ rw e (pump-IsSafe _ h)
]

waiting_heavy-IsSafe :
    (o : Option Waiter) (go : Waiter → Answer)
    → ((w : Waiter) → AnsweredSafe (go w))
    → AnsweredSafe (waiting_heavy o go)
unfolding waiting_heavy
waiting_heavy-IsSafe none go h = tt
waiting_heavy-IsSafe (some w) go h = elim (Bool-cases w.heavy) [
  | inl e ↦ subst (λ b. AnsweredSafe (if b then go w else refused not_queued)) (sym e) (h w)
  | inr e ↦ subst (λ b. AnsweredSafe (if b then go w else refused not_queued)) (sym e) tt
]

pub move-IsSafe : (s : Jobs) (id : Text) (place : Place) → IsSafe s → AnsweredSafe (move s id place)
unfolding move
move-IsSafe s id place h =
    waiting_heavy-IsSafe (find_first (λ w. text_eq w.id id) s.waiting) _ (λ w.
      let heavy = heavy_waiters s.waiting in
      move_to-IsSafe s (index_of id heavy) (destination place (index_of id heavy) (length heavy)) h)

pub force_start-IsSafe : (s : Jobs) (id : Text) → IsSafe s → AnsweredSafe (force_start s id)
unfolding force_start update_job unqueue is_locked
force_start-IsSafe s id h =
    waiting_heavy-IsSafe (find_first (λ w. text_eq w.id id) s.waiting) _ (λ w.
      elim (Bool-cases (w.owner && is_locked s w.lock)) [
        | inl e ↦ rw e tt
        | inr e ↦
            rw e (
              pump-IsSafe _ (begin-IsSound _ (record w { forced = true }) h e (λ server a b c. cc)))
      ])
