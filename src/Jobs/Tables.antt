-- ===== src/Jobs/Tables.antt =====
-- What the tables of Jobs promise (panel/lib/jobs.mjs): no more jobs than allowed load a server, and
-- a lock has one holder.
use forthway_command_center.Base.{
  ◌+◌, ◌≤◌, ◌<◌, ◌≡◌, refl, inl, inr, Bool, true, false, not, ◌&&◌, none, some, List, [], ◌∷◌,
  if◌then◌else◌, all, count, arith, Text, text_eq, text_eq_iff, is_text, is_text_iff, map_set,
  map_get, map_delete, map_get-map_set, IsMap, map_set-IsMap, Bool-cases, Option-cases,
}
use forthway_command_center.Jobs.State.{
  Jobs, Waiter, Slot, Entry, has_text, loads, is_locked, update_job, queue_max,
}
use forthway_command_center.Jobs.Admit.{begin, own_lock, take_slot, store_of}

-- A slot that was not forced and loads the server.
abbrev pub claims : Text → Text × Slot → Bool
claims server x = loads server x.1 && not x.1.forced

pub record IsSound (slots : List (Text × Slot)) (owners : List (Text × Text))
    (live : List (Text × Entry)) : Type 0 where
  pub within : (server : Text) → count (claims server) slots ≤ queue_max
  pub owned :
      (id l : Text) (e : Entry)
      → map_get live id ≡ some e
      → e.owner ≡ true
      → e.lock ≡ some l
      → map_get owners l ≡ some id
  pub live_map : IsMap live
  pub owner_map : IsMap owners

module _ {ℓ} {A : Type ℓ} (q : A → Bool) where
  -- Setting one key adds at most one entry that passes.
  pub count-map_set :
      (m : List (Text × A)) (k : Text) (a : A)
      → count (λ x. q x.1) (map_set m k a) ≤ count (λ x. q x.1) m + (if q a then 1 else 0)
  unfolding map_set
  count-map_set [] k a = ground arith
  count-map_set ((j, b) ∷ m) k a = ground (arith, count-map_set m k a)

  pub count-map_delete :
      (m : List (Text × A)) (k : Text) → count (λ x. q x.1) (map_delete m k) ≤ count (λ x. q x.1) m
  unfolding map_delete
  count-map_delete [] k = ground arith
  count-map_delete ((j, b) ∷ m) k = ground (arith, count-map_delete m k)

-- Every server of a list passes, so does one that the list has.
pub all-has_text :
    (p : Text → Bool) (ts : List Text) (t : Text)
    → all p ts ≡ true
    → has_text ts t ≡ true
    → p t ≡ true
unfolding has_text
all-has_text p [] t h k = cc
all-has_text p (u ∷ ts) t h k = elim (Bool-cases (text_eq u t)) [
  | inl e ↦ rw (← (text_eq_iff u t).0 e) (ground arith)
  | inr e ↦ all-has_text p ts t (ground arith) (ground arith)
]

begin_slots-within :
    (w : Waiter) (slots : List (Text × Slot))
    → ((server : Text) → count (claims server) slots ≤ queue_max)
    → ((server : Text)
        → w.heavy ≡ true
        → w.forced ≡ false
        → has_text w.servers server ≡ true
        → count (claims server) slots < queue_max)
    → (server : Text) → count (claims server) (take_slot w slots) ≤ queue_max
unfolding loads
begin_slots-within w slots h room server = ground (
  arith,
  h server,
  room server,
  count-map_set (λ x. has_text x.servers server && not x.forced) slots w.id
      (record { servers = w.servers; forced = w.forced }),
)

own_lock-get :
    (w : Waiter) (owners : List (Text × Text)) (l : Text)
    → map_get (own_lock w owners) l
      ≡ (if w.owner && is_text w.lock l then some w.id else map_get owners l)
own_lock-get w owners l = elim (Option-cases w.lock) [
  | inl e ↦ ground (arith, e)
  | inr (k, e) ↦ ground (arith, e, map_get-map_set owners k l w.id)
]

own_lock-IsMap :
    (w : Waiter) (owners : List (Text × Text)) → IsMap owners → IsMap (own_lock w owners)
own_lock-IsMap w owners h = elim (Option-cases w.lock) [
  | inl e ↦ rw e h
  | inr (k, e) ↦ elim (Bool-cases w.owner) [
    | inl o ↦ rw (e, o) (map_set-IsMap owners k w.id h)
    | inr o ↦ rw (e, o) h
  ]
]

begin_owned :
    (w : Waiter) (owners : List (Text × Text)) (live : List (Text × Entry)) (f : Entry)
    → ((id l : Text) (e : Entry)
        → map_get live id ≡ some e
        → e.owner ≡ true
        → e.lock ≡ some l
        → map_get owners l ≡ some id)
    → ((l : Text) → w.owner ≡ true → w.lock ≡ some l → map_get owners l ≡ none)
    → f.owner ≡ w.owner
    → f.lock ≡ w.lock
    → (id l : Text) (e : Entry) → map_get (map_set live w.id f) id ≡ some e
    → e.owner ≡ true
    → e.lock ≡ some l
    → map_get (own_lock w owners) l ≡ some id
begin_owned w owners live f h free fo fl id l e g o k = elim (Bool-cases (text_eq w.id id)) [
  | inl same ↦ ground (
    arith,
    map_get-map_set live w.id id f,
    own_lock-get w owners l,
    (text_eq_iff w.id id).0 same,
    (is_text_iff w.lock l).1,
  )
  | inr other ↦ ground (
    arith,
    map_get-map_set live w.id id f,
    own_lock-get w owners l,
    h id l e,
    free l,
    (is_text_iff w.lock l).0,
  )
]

pub begin-IsSound :
    (s : Jobs) (w : Waiter)
    → IsSound s.slots s.lock_owner s.live
    → (w.owner && is_locked s w.lock) ≡ false
    → ((server : Text)
        → w.heavy ≡ true
        → w.forced ≡ false
        → has_text w.servers server ≡ true
        → count (claims server) s.slots < queue_max)
    → IsSound (begin s w).slots (begin s w).lock_owner (begin s w).live
unfolding begin is_locked update_job
begin-IsSound s w h free room = record {
  within = begin_slots-within w s.slots h.within room;
  owned =
      begin_owned w s.lock_owner s.live
        (record { aborted = false; lock = w.lock; owner = w.owner; store = store_of w }) h.owned
        (λ l o k. ground (arith, free)) refl refl;
  live_map = map_set-IsMap s.live w.id _ h.live_map;
  owner_map = own_lock-IsMap w s.lock_owner h.owner_map;
}

abbrev pub IsSafe : Jobs → Type 0
IsSafe s = IsSound s.slots s.lock_owner s.live
