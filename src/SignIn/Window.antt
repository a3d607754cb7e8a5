-- ===== src/SignIn/Window.antt =====
-- The throttle of panel/lib/auth.mjs over a run of events within one window.
use forthway_command_center.Base.{
  ℕ, suc, ◌+◌, ◌≤◌, ◌≡◌, refl, sym, ap, ◌∙◌, subst, inl, inr, Bool, false, not, Option, none, some,
  List, [], ◌∷◌, All, ltb, leb, if◌then◌else◌, length, select, arith, Text, text_eq, text_eq_iff,
  map_get, map_set, map_delete, map_get-map_set, map_get-map_delete, IsMap, map_set-IsMap,
  map_delete-IsMap, Bool-cases, Option-cases,
}
use forthway_command_center.SignIn.Throttle.{
  Attempts, Throttle, is_past, check, check_as, counted, swept, fail, succeed,
}
use forthway_command_center.SignIn.Limits.{
  passing, map_get-select, lacks-select, is_refusal, refuses, check-refuses,
}

-- What sign-ins call, each in its own moment: the check before a password is read, and the failure or
-- the success after it. Other sign-ins come in between.
pub data Event : Type 0 where
  checked failed : Text → ℕ → Event
  succeeded : Text → Event

unfoldable pub happens : Throttle → Event → Throttle
happens t (checked key now) = (check t key now).0
happens t (failed key now) = fail t key now
happens t (succeeded key) = succeed t key

unfoldable pub after_events : Throttle → List Event → Throttle
after_events t [] = t
after_events t (e ∷ es) = after_events (happens t e) es

abbrev pub is_failure : Text → Event → Bool
is_failure key (failed k now) = text_eq k key
is_failure key _ = false

-- How often the key fails.
abbrev pub failures : Text → List Event → ℕ
failures key [] = 0
failures key (e ∷ es) = if is_failure key e then suc (failures key es) else failures key es

-- The event is between two times, and no success of the key.
abbrev pub IsWithin : Text → ℕ → ℕ → Event → Type 0
IsWithin key start later (checked k now) = (start ≤ now) × (now ≤ later)
IsWithin key start later (failed k now) = (start ≤ now) × (now ≤ later)
IsWithin key start later (succeeded k) = text_eq k key ≡ false

abbrev Counts : ℕ → ℕ → Option Attempts → Type 0
Counts start n none = n ≡ 0
Counts start n (some r) = (start ≤ r.first) × (r.count ≡ n)

-- The throttle has the limits of the original one, and has counted so many failures of the key.
record Holds (base : Throttle) (key : Text) (start n : ℕ) (t : Throttle) : Type 0 where
  window : t.window_ms ≡ base.window_ms
  limit : t.max_attempts ≡ base.max_attempts
  is_map : IsMap t.by_key
  counts : Counts start n (map_get t.by_key key)

Counts-passing :
    (t : Throttle) (start n now : ℕ) (o : Option Attempts)
    → Counts start n o
    → now ≤ start + t.window_ms
    → passing (λ r. not (is_past t now r)) o ≡ o
Counts-passing t start n now none h le = refl
Counts-passing t start n now (some r) h le = ground (arith, h.0)

still_on :
    (t : Throttle) (start now : ℕ) (r : Attempts)
    → start ≤ r.first
    → now ≤ start + t.window_ms
    → is_past t now r ≡ false
still_on t start now r h le = ground (arith, h)

Counts-counted :
    (t : Throttle) (start n now : ℕ) (o : Option Attempts)
    → Counts start n o
    → start ≤ now
    → now ≤ start + t.window_ms
    → Counts start (suc n) (some (counted t now o))
unfolding counted
Counts-counted t start n now none h from le = (from, omega (arith, h))
Counts-counted t start n now (some r) h from le =
    rw (still_on t start now r h.0 le) (h.0, omega (arith, h.1))

select-IsMap :
    (p : Attempts → Bool) (m : List (Text × Attempts)) → IsMap m → IsMap (select (λ x. p x.1) m)
select-IsMap p [] h = tt
select-IsMap p ((k, r) ∷ m) h = elim (Bool-cases (p r)) [
  | inl e ↦ rw e (lacks-select p m k h.0, select-IsMap p m h.1)
  | inr e ↦ rw e (select-IsMap p m h.1)
]

module _ (base : Throttle) (key : Text) (start later : ℕ)
    (le : later ≤ start + base.window_ms) where
  delete-Holds :
      (n : ℕ) (t : Throttle) (k : Text)
      → Holds base key start n t
      → text_eq k key ≡ false
      → Holds base key start n (record t { by_key = map_delete t.by_key k })
  delete-Holds n t k h other = record {
    window = h.window;
    limit = h.limit;
    is_map = map_delete-IsMap t.by_key k h.is_map;
    counts = rw (map_get-map_delete t.by_key k key h.is_map, other) h.counts;
  }

  check_as-Holds :
      (n : ℕ) (t : Throttle) (k : Text) (now : ℕ) (o : Option Attempts)
      → map_get t.by_key k ≡ o
      → Holds base key start n t
      → now ≤ later
      → Holds base key start n (check_as t k now o).0
  unfolding check_as
  check_as-Holds n t k now none e h to = h
  check_as-Holds n t k now (some r) e h to = elim (Bool-cases (is_past t now r)) [
    | inl past ↦ elim (Bool-cases (text_eq k key)) [
      | inl same ↦
          let counts =
            subst (Counts start n) (ap (map_get t.by_key) (sym ((text_eq_iff k key).0 same)) ∙ e)
              h.counts in
          absurd (cc (still_on t start now r counts.0 (omega (arith, to, le, h.window)), past))
      | inr other ↦ rw past (delete-Holds n t k h other)
    ]
    | inr on ↦ elim (Bool-cases (leb t.max_attempts r.count)) [
      | inl full ↦ rw (on, full) h
      | inr few ↦ rw (on, few) h
    ]
  ]

  put-Holds :
      (n : ℕ) (t : Throttle) (k : Text) (now : ℕ)
      → Holds base key start n t
      → start ≤ now
      → now ≤ later
      → Holds base key start
          (if text_eq k key then suc n else n)
          (record t { by_key = map_set t.by_key k (counted t now (map_get t.by_key k)) })
  put-Holds n t k now h from to =
      let r = counted t now (map_get t.by_key k) in
      record {
        window = h.window;
        limit = h.limit;
        is_map = map_set-IsMap t.by_key k r h.is_map;
        counts = elim (Bool-cases (text_eq k key)) [
          | inl same ↦
              rw (map_get-map_set t.by_key k key r, same)
                (Counts-counted t start n now (map_get t.by_key k)
                  (rw ((text_eq_iff k key).0 same) h.counts) from (omega (arith, to, le, h.window)))
          | inr other ↦ rw (map_get-map_set t.by_key k key r, other) h.counts
        ];
      }

  swept-Holds :
      (n : ℕ) (t : Throttle) (now : ℕ)
      → Holds base key start n t
      → now ≤ later
      → Holds base key start n (swept t now)
  unfolding swept
  swept-Holds n t now h to = elim (Bool-cases (ltb 10000 (length t.by_key))) [
    | inr few ↦ rw few h
    | inl many ↦ rw many (record {
      window = h.window;
      limit = h.limit;
      is_map = select-IsMap (λ r. not (is_past t now r)) t.by_key h.is_map;
      counts =
          rw
            (
              map_get-select (λ r. not (is_past t now r)) t.by_key key h.is_map,
              Counts-passing t start n now (map_get t.by_key key) h.counts
                  (omega (arith, to, le, h.window)),
            )
            h.counts;
    })
  ]

  happens-Holds :
      (n : ℕ) (t : Throttle) (e : Event)
      → Holds base key start n t
      → IsWithin key start later e
      → Holds base key start (if is_failure key e then suc n else n) (happens t e)
  unfolding happens check fail succeed
  happens-Holds n t (checked k now) h w = check_as-Holds n t k now (map_get t.by_key k) refl h w.1
  happens-Holds n t (failed k now) h w =
      swept-Holds _ (record t { by_key = map_set t.by_key k (counted t now (map_get t.by_key k)) })
        now (put-Holds n t k now h w.0 w.1) w.1
  happens-Holds n t (succeeded k) h w = delete-Holds n t k h w

  failures-suc :
      (n : ℕ) (e : Event) (es : List Event)
      → failures key es + (if is_failure key e then suc n else n) ≡ failures key (e ∷ es) + n
  failures-suc n e es = elim (Bool-cases (is_failure key e)) [
    | inl fails ↦ rw fails (omega arith)
    | inr passes ↦ rw passes refl
  ]

  after_events-Holds :
      (n : ℕ) (t : Throttle) (es : List Event)
      → Holds base key start n t
      → All (IsWithin key start later) es
      → Holds base key start (failures key es + n) (after_events t es)
  unfolding after_events
  after_events-Holds n t [] h w = subst (λ m. Holds base key start m t) (omega arith) h
  after_events-Holds n t (e ∷ es) h w =
      let m = if is_failure key e then suc n else n in
      subst (λ m. Holds base key start m (after_events (happens t e) es)) (failures-suc n e es)
        (after_events-Holds m (happens t e) es (happens-Holds n t e h w.0) w.1)

refuses-Counts :
    (base t : Throttle) (key : Text) (start later n : ℕ)
    → Holds base key start n t
    → 1 ≤ base.max_attempts
    → later ≤ start + base.window_ms
    → refuses t later (map_get t.by_key key) ≡ leb base.max_attempts n
refuses-Counts base t key start later n h one le = elim (Option-cases (map_get t.by_key key)) [
  | inl e ↦ (let c = subst (Counts start n) e h.counts in rw e (ground (arith, c)))
  | inr (r, e) ↦
      let c = subst (Counts start n) e h.counts in
      rw e
        (ground (arith, still_on t start later r c.0 (omega (arith, le, h.window)), c.1, h.limit))
]

-- Within one window, a key without an entry at first and without a success is refused exactly when it
-- has failed at least as often as is allowed, which is once or more, whatever checks and failures of
-- any keys and successes of other keys come in between, in any order.
pub check-failures :
    (t : Throttle) (key : Text) (start later : ℕ) (es : List Event)
    → 1 ≤ t.max_attempts
    → IsMap t.by_key
    → map_get t.by_key key ≡ none
    → All (IsWithin key start later) es
    → later ≤ start + t.window_ms
    → is_refusal (check (after_events t es) key later).1 ≡ leb t.max_attempts (failures key es)
check-failures t key start later es one m e w le =
    let h : Holds t key start 0 t = record {
      window = refl;
      limit = refl;
      is_map = m;
      counts = rw e refl;
    } in
    check-refuses (after_events t es) key later
    ∙ refuses-Counts t (after_events t es) key start later (failures key es + 0)
        (after_events-Holds t key start later le 0 t es h w) one le
    ∙ ap (leb t.max_attempts) (omega arith)
