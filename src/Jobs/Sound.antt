-- ===== src/Jobs/Sound.antt =====
-- Admission to the queue and the end of a job, panel/lib/jobs.mjs, keep the tables sound.
use forthway_command_center.Base.{
  ℕ, ◌+◌, ◌≤◌, ◌<◌, ◌≡◌, refl, inl, inr, true, false, not, ◌&&◌, Option, none, some, List, [], ◌∷◌,
  ltb, count, arith, Text, text_eq, text_eq_iff, text_eq-sym, count_mono, map_get,
  map_get-map_delete, IsMap, map_delete-IsMap, Bool-cases, Option-cases,
}
use forthway_command_center.Jobs.State.{
  Jobs, Status, Waiter, Entry, has_text, loads, used, is_locked, is_over, update_job, per_server,
  clamp_per_server, queue_max,
}
use forthway_command_center.Jobs.Admit.{
  Round, admit_one, admit, lock_free, slots_free, unqueue, number_from, sync_positions, pump,
  first_round,
}
use forthway_command_center.Jobs.Tables.{
  claims, IsSafe, begin-IsSound, all-has_text, count-map_delete,
}
use forthway_command_center.Jobs.Life.{settle, release_lock, is_owner}
use forthway_command_center.Jobs.State.{Reason}

claims-used : (s : Jobs) (server : Text) → count (claims server) s.slots ≤ used s server
unfolding used loads
claims-used s server =
    count_mono (claims server) (λ x. loads server x.1) s.slots (λ x h. ground arith)

slots_free-room :
    (s : Jobs) (limit : ℕ) (servers : List Text) (w : Waiter) (server : Text)
    → limit ≤ queue_max
    → slots_free s limit servers w ≡ true
    → w.heavy ≡ true
    → has_text w.servers server ≡ true
    → count (claims server) s.slots < queue_max
unfolding slots_free
slots_free-room s limit servers w server le free heavy has = ground (
  arith,
  claims-used s server,
  all-has_text (λ x. not (has_text servers x) && ltb (used s x) limit) w.servers server,
)

lock_free-unlocked :
    (s : Jobs) (locks : List Text) (w : Waiter)
    → lock_free s locks w ≡ true
    → (w.owner && is_locked s w.lock) ≡ false
unfolding lock_free
lock_free-unlocked s locks w g = ground arith

admit_one-IsSafe :
    (limit : ℕ) (w : Waiter) (r : Round)
    → limit ≤ queue_max
    → IsSafe r.jobs
    → IsSafe (admit_one limit w r).jobs
unfolding admit_one unqueue is_locked
admit_one-IsSafe limit w r le h = elim (Bool-cases (is_over r.jobs w.id)) [
  | inl over ↦ rw over h
  | inr on ↦ elim (Bool-cases (lock_free r.jobs r.locks w && slots_free r.jobs limit r.servers w)) [
    | inl goes ↦
        rw (on, goes)
          (begin-IsSound (unqueue r.jobs w.id) w h
            (lock_free-unlocked r.jobs r.locks w (ground arith))
            (λ server a b c. slots_free-room r.jobs limit r.servers w server le (ground arith) a c))
    | inr waits ↦ rw (on, waits) h
  ]
]

admit-IsSafe :
    (limit : ℕ) (ws : List Waiter) (r : Round)
    → limit ≤ queue_max
    → IsSafe r.jobs
    → IsSafe (admit limit ws r).jobs
unfolding admit
admit-IsSafe limit [] r le h = h
admit-IsSafe limit (w ∷ ws) r le h =
    admit-IsSafe limit ws (admit_one limit w r) le (admit_one-IsSafe limit w r le h)

pub number_from-tables :
    (n : ℕ) (ws : List Waiter) (s : Jobs)
    → ((number_from n ws s).slots ≡ s.slots)
      × ((number_from n ws s).lock_owner ≡ s.lock_owner)
      × ((number_from n ws s).live ≡ s.live)
unfolding number_from update_job
number_from-tables n [] s = (refl, refl, refl)
number_from-tables n (w ∷ ws) s = elim (Bool-cases w.heavy) [
  | inl h ↦ rw h (number_from-tables (n + 1) ws _)
  | inr h ↦ rw h (number_from-tables n ws s)
]

pub per_server_bounds : (s : Jobs) → (1 ≤ per_server s) × (per_server s ≤ queue_max)
unfolding per_server clamp_per_server
per_server_bounds s = ground arith

-- Admission keeps the tables safe.
pub pump-IsSafe : (s : Jobs) → IsSafe s → IsSafe (pump s)
unfolding pump sync_positions
pump-IsSafe s h =
    let t = (admit (per_server s) s.waiting (first_round s)).jobs in
    let e = number_from-tables 0 t.waiting t in
    rw (e.0, e.1, e.2)
      (admit-IsSafe (per_server s) s.waiting (first_round s) (per_server_bounds s).1 h)

release_lock-get :
    (e : Option Entry) (id : Text) (m : List (Text × Text)) (l j : Text)
    → IsMap m
    → text_eq id j ≡ false
    → map_get m l ≡ some j
    → map_get (release_lock e id m) l ≡ some j
release_lock-get none id m l j h n g = g
release_lock-get (some e) id m l j h n g = elim (Option-cases e.lock) [
  | inl p ↦ rw p g
  | inr (k, p) ↦ ground (arith, p, map_get-map_delete m k l h, text_eq_iff k l, text_eq-sym j id)
]

release_lock-IsMap :
    (e : Option Entry) (id : Text) (m : List (Text × Text)) → IsMap m → IsMap (release_lock e id m)
release_lock-IsMap none id m h = h
release_lock-IsMap (some e) id m h = elim (Option-cases e.lock) [
  | inl p ↦ rw p h
  | inr (k, p) ↦ elim (Bool-cases (e.owner && is_owner (map_get m k) id)) [
    | inl own ↦ rw (p, own) (map_delete-IsMap m k h)
    | inr other ↦ rw (p, other) h
  ]
]

pub settle-IsSafe :
    (s : Jobs) (id : Text) (status : Status) (error : Option Reason)
    → IsSafe s
    → IsSafe (settle s id status error)
unfolding settle update_job
settle-IsSafe s id status error h = record {
  within = λ server.
      omega
        (arith, h.within server, count-map_delete (λ x. loads server x && not x.forced) s.slots id);
  owned = λ j l e g o k. elim (Bool-cases (text_eq id j)) [
    | inl same ↦ absurd (ground (arith, map_get-map_delete s.live id j h.live_map))
    | inr other ↦
        release_lock-get (map_get s.live id) id s.lock_owner l j h.owner_map other
          (h.owned j l e (ground (arith, map_get-map_delete s.live id j h.live_map)) o k)
  ];
  live_map = map_delete-IsMap s.live id h.live_map;
  owner_map = release_lock-IsMap (map_get s.live id) id s.lock_owner h.owner_map;
}
