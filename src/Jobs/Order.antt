-- ===== src/Jobs/Order.antt =====
-- Who goes first in the queue of panel/lib/jobs.mjs: a waiter that cannot start reserves what it
-- waits for, so that no later one overtakes it there.
use forthway_command_center.Base.{
  ℕ, ◌≡◌, refl, inl, inr, Bool, true, false, not, ◌&&◌, some, List, [], ◌∷◌, ◌++◌, ltb, arith, Text,
  text_eq_refl, Bool-cases, Option-cases,
}
use forthway_command_center.Jobs.State.{Waiter, has_text, in_locks, is_over, used}
use forthway_command_center.Jobs.Admit.{
  Round, admit, admit_one, lock_free, slots_free, block_lock, block_servers, begin, unqueue,
}
use forthway_command_center.Jobs.Tables.{all-has_text}

-- The waiter starts when its turn comes.
abbrev pub starts : ℕ → Waiter → Round → Bool
starts limit w r = lock_free r.jobs r.locks w && slots_free r.jobs limit r.servers w

-- What is reserved stays so for the rest of the round.
has_text-append :
    (xs ys : List Text) (t : Text) → has_text ys t ≡ true → has_text (xs ++ ys) t ≡ true
unfolding has_text
has_text-append [] ys t h = h
has_text-append (x ∷ xs) ys t h = ground (arith, has_text-append xs ys t h)

has_text-append_left :
    (xs ys : List Text) (t : Text) → has_text xs t ≡ true → has_text (xs ++ ys) t ≡ true
unfolding has_text
has_text-append_left [] ys t h = cc
has_text-append_left (x ∷ xs) ys t h = ground (arith, has_text-append_left xs ys t)

block_lock-keeps :
    (w : Waiter) (locks : List Text) (t : Text)
    → has_text locks t ≡ true
    → has_text (block_lock w locks) t ≡ true
unfolding has_text
block_lock-keeps w locks t h = elim (Option-cases w.lock) [
  | inl e ↦ rw e h
  | inr (l, e) ↦ ground (arith, e, h)
]

block_lock-has :
    (w : Waiter) (locks : List Text) (l : Text)
    → w.owner ≡ true
    → w.lock ≡ some l
    → has_text (block_lock w locks) l ≡ true
unfolding has_text
block_lock-has w locks l o e = ground (arith, text_eq_refl l)

-- Nothing that is reserved is given up within a round.
record Keeps (r q : Round) : Type 0 where
  locks : (t : Text) → has_text r.locks t ≡ true → has_text q.locks t ≡ true
  servers : (t : Text) → has_text r.servers t ≡ true → has_text q.servers t ≡ true

pub admit_one-over :
    (limit : ℕ) (w : Waiter) (r : Round)
    → is_over r.jobs w.id ≡ true
    → admit_one limit w r ≡ record r { jobs = unqueue r.jobs w.id }
unfolding admit_one
admit_one-over limit w r h = rw h refl

pub admit_one-starts :
    (limit : ℕ) (w : Waiter) (r : Round)
    → is_over r.jobs w.id ≡ false
    → starts limit w r ≡ true
    → admit_one limit w r ≡ record r { jobs = begin (unqueue r.jobs w.id) w }
unfolding admit_one
admit_one-starts limit w r h k = rw (h, k) refl

pub admit_one-waits :
    (limit : ℕ) (w : Waiter) (r : Round)
    → is_over r.jobs w.id ≡ false
    → starts limit w r ≡ false
    → admit_one limit w r ≡ record r {
      locks = block_lock w r.locks;
      servers = block_servers (slots_free r.jobs limit r.servers w) w r.servers;
    }
unfolding admit_one
admit_one-waits limit w r h k = rw (h, k) refl

block_servers-keeps :
    (b : Bool) (w : Waiter) (servers : List Text) (t : Text)
    → has_text servers t ≡ true
    → has_text (block_servers b w servers) t ≡ true
block_servers-keeps b w servers t h = elim (Bool-cases (w.heavy && not b)) [
  | inl e ↦ rw e (has_text-append w.servers servers t h)
  | inr e ↦ rw e h
]

admit_one-Keeps : (limit : ℕ) (w : Waiter) (r : Round) → Keeps r (admit_one limit w r)
admit_one-Keeps limit w r = elim (Bool-cases (is_over r.jobs w.id)) [
  | inl over ↦ rw (admit_one-over limit w r over) (record { locks = λ t h. h; servers = λ t h. h })
  | inr on ↦ elim (Bool-cases (starts limit w r)) [
    | inl goes ↦
        rw (admit_one-starts limit w r on goes) (record { locks = λ t h. h; servers = λ t h. h })
    | inr waits ↦ rw (admit_one-waits limit w r on waits) (record {
      locks = block_lock-keeps w r.locks;
      servers = block_servers-keeps (slots_free r.jobs limit r.servers w) w r.servers;
    })
  ]
]

admit-Keeps : (limit : ℕ) (ws : List Waiter) (r : Round) → Keeps r (admit limit ws r)
unfolding admit
admit-Keeps limit [] r = record { locks = λ t h. h; servers = λ t h. h }
admit-Keeps limit (w ∷ ws) r =
    let a = admit_one-Keeps limit w r in
    let b = admit-Keeps limit ws (admit_one limit w r) in
    record { locks = λ t h. b.locks t (a.locks t h); servers = λ t h. b.servers t (a.servers t h) }

-- When a waiter that wants a lock for itself cannot start at its turn in a round, no later one of
-- that round starts with the same lock.
pub no_overtaking_lock :
    (limit : ℕ) (between : List Waiter) (w v : Waiter) (r : Round) (l : Text)
    → is_over r.jobs w.id ≡ false
    → starts limit w r ≡ false
    → w.owner ≡ true
    → w.lock ≡ some l
    → v.owner ≡ true
    → v.lock ≡ some l
    → starts limit v (admit limit between (admit_one limit w r)) ≡ false
unfolding lock_free in_locks
no_overtaking_lock limit between w v r l on waits wo wl vo vl =
    let k = admit-Keeps limit between (admit_one limit w r) in
    let h : has_text (admit_one limit w r).locks l ≡ true =
      rw (admit_one-waits limit w r on waits) (block_lock-has w r.locks l wo wl) in
    ground (arith, k.locks l h)

-- When a heavy waiter is short of a slot at its turn in a round, no later heavy one of that round
-- starts that loads a server of the first.
pub no_overtaking_server :
    (limit : ℕ) (between : List Waiter) (w v : Waiter) (r : Round) (server : Text)
    → is_over r.jobs w.id ≡ false
    → slots_free r.jobs limit r.servers w ≡ false
    → has_text w.servers server ≡ true
    → v.heavy ≡ true
    → has_text v.servers server ≡ true
    → starts limit v (admit limit between (admit_one limit w r)) ≡ false
unfolding slots_free
no_overtaking_server limit between w v r server on short ws vh vs =
    let q = admit limit between (admit_one limit w r) in
    let k = admit-Keeps limit between (admit_one limit w r) in
    let waits : starts limit w r ≡ false = ground arith in
    let heavy : w.heavy ≡ true = ground arith in
    let h : has_text (admit_one limit w r).servers server ≡ true =
      rw (admit_one-waits limit w r on waits, short, heavy)
        (has_text-append_left w.servers r.servers server ws) in
    elim (Bool-cases (slots_free q.jobs limit q.servers v)) [
      | inr no_slot ↦ ground (arith, no_slot)
      | inl slot ↦ absurd (
          ground (
            arith,
            k.servers server h,
            all-has_text (λ x. not (has_text q.servers x) && ltb (used q.jobs x) limit) v.servers
                server (ground arith) vs,
          ))
    ]
