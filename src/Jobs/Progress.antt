-- ===== src/Jobs/Progress.antt =====
-- The queue of panel/lib/jobs.mjs moves on: when nothing runs, a job that waits starts.
use forthway_command_center.Base.{
  ℕ, ◌≡◌, ◌≤◌, ap, any, all, count, not, ltb, ◌&&◌, Option-cases, refl, ◌∙◌, inl, inr, Bool, true,
  false, Option, none, some, List, [], ◌∷◌, arith, Text, text_eq, text_eq_refl, Bool-cases, map_get,
  map_set, map_get-map_set, if◌then◌else◌,
}
use forthway_command_center.Jobs.State.{
  Jobs, Waiter, Entry, per_server, is_over, update_job, is_locked, in_locks, has_text, used, loads,
}
use forthway_command_center.Jobs.Admit.{
  Round, first_round, admit, admit_one, lock_free, slots_free, begin, unqueue, run, sync_positions,
  pump,
}
use forthway_command_center.Jobs.Order.{starts, admit_one-over, admit_one-starts, admit_one-waits}
use forthway_command_center.Jobs.Sound.{number_from-tables, per_server_bounds}

any-first : (p : Waiter → Bool) (w : Waiter) (ws : List Waiter) → p w ≡ true → any p (w ∷ ws) ≡ true
any-first p w ws h = ground arith

any-later :
    (p : Waiter → Bool) (w : Waiter) (ws : List Waiter) → any p ws ≡ true → any p (w ∷ ws) ≡ true
any-later p w ws h = ground arith

any-same :
    {p q : Waiter → Bool} → ((w : Waiter) → p w ≡ q w) → (ws : List Waiter) → any p ws ≡ any q ws
any-same h [] = refl
any-same h (w ∷ ws) = rw (h w, any-same h ws) refl

has_entry : Option Entry → Bool
has_entry none = false
has_entry (some l) = true

-- The function of the job has been started.
unfoldable pub is_live : Jobs → Text → Bool
unfolding has_entry
is_live s id = has_entry (map_get s.live id)

has_entry-map_set :
    (m : List (Text × Entry)) (k id : Text) (a : Entry)
    → has_entry (map_get (map_set m k a) id)
      ≡ (if text_eq k id then true else has_entry (map_get m id))
unfolding has_entry
has_entry-map_set m k id a = elim (Bool-cases (text_eq k id)) [
  | inl e ↦ rw (map_get-map_set m k id a, e) refl
  | inr e ↦ rw (map_get-map_set m k id a, e) refl
]

begin-is_live :
    (s : Jobs) (w : Waiter) (id : Text)
    → is_live (begin s w) id ≡ (if text_eq w.id id then true else is_live s id)
unfolding is_live begin run update_job
begin-is_live s w id = has_entry-map_set s.live w.id id _

begin-stays :
    (s : Jobs) (w : Waiter) (id : Text) → is_live s id ≡ true → is_live (begin s w) id ≡ true
begin-stays s w id h = ground (arith, begin-is_live s w id)

begin-starts : (s : Jobs) (w : Waiter) → is_live (begin s w) w.id ≡ true
begin-starts s w = ground (arith, begin-is_live s w w.id, text_eq_refl w.id)

unqueue-is_live : (s : Jobs) (k id : Text) → is_live (unqueue s k) id ≡ is_live s id
unfolding is_live unqueue
unqueue-is_live s k id = refl

admit_one-is_live :
    (limit : ℕ) (w : Waiter) (r : Round) (id : Text)
    → is_live r.jobs id ≡ true
    → is_live (admit_one limit w r).jobs id ≡ true
admit_one-is_live limit w r id h = elim (Bool-cases (is_over r.jobs w.id)) [
  | inl over ↦ rw (admit_one-over limit w r over) (unqueue-is_live r.jobs w.id id ∙ h)
  | inr on ↦ elim (Bool-cases (starts limit w r)) [
    | inl goes ↦
        rw (admit_one-starts limit w r on goes)
          (begin-stays (unqueue r.jobs w.id) w id (unqueue-is_live r.jobs w.id id ∙ h))
    | inr waits ↦ rw (admit_one-waits limit w r on waits) h
  ]
]

admit-is_live :
    (limit : ℕ) (ws : List Waiter) (r : Round) (id : Text)
    → is_live r.jobs id ≡ true
    → is_live (admit limit ws r).jobs id ≡ true
unfolding admit
admit-is_live limit [] r id h = h
admit-is_live limit (w ∷ ws) r id h =
    admit-is_live limit ws (admit_one limit w r) id (admit_one-is_live limit w r id h)

sync_positions-is_live : (s : Jobs) (id : Text) → is_live (sync_positions s) id ≡ is_live s id
unfolding sync_positions is_live
sync_positions-is_live s id = rw ((number_from-tables 0 s.waiting s).2) refl

-- Nothing is held and nothing is reserved.
record IsIdle (r : Round) : Type 0 where
  locks : r.locks ≡ []
  servers : r.servers ≡ []
  lock_owner : r.jobs.lock_owner ≡ []
  slots : r.jobs.slots ≡ []

in_locks-none : (l : Option Text) → in_locks [] l ≡ false
unfolding in_locks has_text
in_locks-none none = refl
in_locks-none (some l) = refl

lock_free-idle : (r : Round) (w : Waiter) → IsIdle r → lock_free r.jobs r.locks w ≡ true
unfolding lock_free is_locked map_get
lock_free-idle r w i = elim (Option-cases w.lock) [
  | inl e ↦ ground (arith, e, i.locks, in_locks-none w.lock)
  | inr (l, e) ↦ rw (e, i.lock_owner, i.locks, in_locks-none (some l), map_get) (ground arith)
]

all-used :
    (s : Jobs) (limit : ℕ) (xs : List Text)
    → s.slots ≡ []
    → 1 ≤ limit
    → all (λ x. not (has_text [] x) && ltb (used s x) limit) xs ≡ true
unfolding used has_text
all-used s limit [] e h = refl
all-used s limit (x ∷ xs) e h =
    ground (arith, ap (count (λ y. loads x y.1)) e, all-used s limit xs e h)

slots_free-idle :
    (limit : ℕ) (r : Round) (w : Waiter)
    → IsIdle r
    → 1 ≤ limit
    → slots_free r.jobs limit r.servers w ≡ true
unfolding slots_free
slots_free-idle limit r w i h =
    rw i.servers (ground (arith, all-used r.jobs limit w.servers i.slots h))

is_over-unqueue : (s : Jobs) (k id : Text) → is_over (unqueue s k) id ≡ is_over s id
unfolding is_over unqueue
is_over-unqueue s k id = refl

any-is_over-unqueue :
    (s : Jobs) (k : Text) (ws : List Waiter)
    → any (λ w. not (is_over (unqueue s k) w.id)) ws ≡ any (λ w. not (is_over s w.id)) ws
any-is_over-unqueue s k [] = refl
any-is_over-unqueue s k (w ∷ ws) = rw (is_over-unqueue s k w.id, any-is_over-unqueue s k ws) refl

unqueue-IsIdle : (r : Round) (k : Text) → IsIdle r → IsIdle (record r { jobs = unqueue r.jobs k })
unfolding unqueue
unqueue-IsIdle r k i = record {
  locks = i.locks;
  servers = i.servers;
  lock_owner = i.lock_owner;
  slots = i.slots;
}

admit-starts :
    (limit : ℕ) (ws : List Waiter) (r : Round)
    → 1 ≤ limit
    → IsIdle r
    → any (λ w. not (is_over r.jobs w.id)) ws ≡ true
    → any (λ w. is_live (admit limit ws r).jobs w.id) ws ≡ true
unfolding admit
admit-starts limit [] r h i a = cc
admit-starts limit (w ∷ ws) r h i a = elim (Bool-cases (is_over r.jobs w.id)) [
  | inl over ↦
      let q = record r { jobs = unqueue r.jobs w.id } in
      let rest : any (λ v. not (is_over r.jobs v.id)) ws ≡ true = ground (arith, over) in
      let later =
        admit-starts limit ws q h (unqueue-IsIdle r w.id i)
          (any-is_over-unqueue r.jobs w.id ws ∙ rest) in
      any-later (λ v. is_live (admit limit ws (admit_one limit w r)).jobs v.id) w ws
        (rw (admit_one-over limit w r over) later)
  | inr on ↦
      let goes : starts limit w r ≡ true =
        ground (arith, lock_free-idle r w i, slots_free-idle limit r w i h) in
      any-first (λ v. is_live (admit limit ws (admit_one limit w r)).jobs v.id) w ws
        (admit-is_live limit ws (admit_one limit w r) w.id
          (rw (admit_one-starts limit w r on goes) (begin-starts (unqueue r.jobs w.id) w)))
]

-- When no lock is held and no slot is taken, and a job of the queue is not over, a job of the queue
-- runs after one admission.
pub pump-is_live :
    (s : Jobs)
    → s.lock_owner ≡ []
    → s.slots ≡ []
    → any (λ w. not (is_over s w.id)) s.waiting ≡ true
    → any (λ w. is_live (pump s) w.id) s.waiting ≡ true
unfolding pump
pump-is_live s locks slots on =
    any-same
      (λ w. sync_positions-is_live (admit (per_server s) s.waiting (first_round s)).jobs w.id)
      s.waiting
    ∙ admit-starts (per_server s) s.waiting (first_round s) (per_server_bounds s).0
        (record { locks = refl; servers = refl; lock_owner = locks; slots = slots }) on
