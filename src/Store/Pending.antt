-- ===== src/Store/Pending.antt =====
-- The file of panel/lib/store.mjs and the records in memory, over the calls of the store and the
-- changes of live records.
use forthway_command_center.Base.{
  ℕ, map, text_eq, refl, ◌≡◌, sym, ap, subst, ◌∙◌, inl, inr, Bool, true, false, Option, none, some,
  List, [], ◌∷◌, if◌then◌else◌, any, find_first, select, arith, Text, text_eq_iff, Value, map_get,
  map_get-map_set, Bool-cases, Option-cases,
}
use forthway_command_center.Store.State.{
  Data, json_item, stringified, alter, Store, Item, items, with_coll, with_id, write, save,
  save_now, fire, list, get, insert, named, is_empty, Inserted, inserted, duplicate, update, remove,
  remove_where,
}

-- The store may not write, or a write is due, or the file holds every record as JSON keeps it.
pub data IsKept (s : Store) : Type 0 where
  standby : s.read_only ≡ true → IsKept s
  due : s.timer ≡ true → IsKept s
  stored : ((c : Text) → items s.file c ≡ map json_item (items s.tables c)) → IsKept s

pub items-stringified : (d : Data) (c : Text) → items (stringified d) c ≡ map json_item (items d c)
unfolding items map_get stringified
items-stringified [] c = refl
items-stringified ((k, xs) ∷ d) c = elim (Bool-cases (text_eq k c)) [
  | inl e ↦ rw (e, items) refl
  | inr e ↦ rw (e, items) (items-stringified d c)
]

pub with_coll-items : (s : Store) (c d : Text) → items (with_coll s c).tables d ≡ items s.tables d
unfolding with_coll items
with_coll-items s c d = elim (Option-cases (map_get s.tables c)) [
  | inl e ↦ ground (arith, e, map_get-map_set s.tables c d [], text_eq_iff c d)
  | inr (xs, e) ↦ ground (arith, e)
]

record SameBut (s t : Store) : Type 0 where
  read_only : t.read_only ≡ s.read_only
  timer : t.timer ≡ s.timer
  file : t.file ≡ s.file

with_coll-SameBut : (s : Store) (c : Text) → SameBut s (with_coll s c)
unfolding with_coll
with_coll-SameBut s c = elim (Option-cases (map_get s.tables c)) [
  | inl e ↦ record { read_only = ground arith; timer = ground arith; file = ground arith }
  | inr (xs, e) ↦ record { read_only = ground arith; timer = ground arith; file = ground arith }
]

with_coll-IsKept : (s : Store) (c : Text) → IsKept s → IsKept (with_coll s c)
with_coll-IsKept s c (standby e) = standby ((with_coll-SameBut s c).read_only ∙ e)
with_coll-IsKept s c (due e) = due ((with_coll-SameBut s c).timer ∙ e)
with_coll-IsKept s c (stored f) = stored (λ d.
    ap (λ x. items x d) (with_coll-SameBut s c).file
    ∙ f d
    ∙ ap (map json_item) (sym (with_coll-items s c d)))

save-IsKept : (s : Store) → IsKept (save s)
unfolding save
save-IsKept s = elim (Bool-cases s.read_only) [
  | inl e ↦ standby (ground arith)
  | inr e ↦ due (ground arith)
]

write-IsKept : (s : Store) → IsKept (write s true)
unfolding write
write-IsKept s = elim (Bool-cases s.read_only) [
  | inl e ↦ standby (ground arith)
  | inr e ↦ stored (λ c. rw e (items-stringified s.tables c))
]

fire-IsKept : (s : Store) → IsKept s → IsKept (fire s true)
unfolding fire
fire-IsKept s h = elim (Bool-cases s.timer) [
  | inl e ↦
      subst (λ b. IsKept (if b then write (record s { timer = false }) true else s)) (sym e)
        (write-IsKept _)
  | inr e ↦ subst (λ b. IsKept (if b then write (record s { timer = false }) true else s)) (sym e) h
]

save_now-IsKept : (s : Store) → IsKept (save_now s true)
unfolding save_now
save_now-IsKept s = elim (Bool-cases s.read_only) [
  | inl e ↦
      subst (λ b. IsKept (if b then s else write (record s { timer = false }) true)) (sym e)
        (standby e)
  | inr e ↦
      subst (λ b. IsKept (if b then s else write (record s { timer = false }) true)) (sym e)
        (write-IsKept _)
]

-- The store after an insertion, whether it was refused or not.
abbrev pub after : Inserted → Store
after (inserted s x) = s
after (duplicate s) = s

insert-IsKept :
    (s : Store) (c : Text) (x : Item) (new : Text) (now : Value)
    → IsKept s
    → IsKept (after (insert s c x new now))
unfolding insert
insert-IsKept s c x new now h =
    elim (Bool-cases (any (with_id (named x new).id) (items s.tables c))) [
      | inl e ↦ rw e (with_coll-IsKept s c h)
      | inr e ↦ rw e (save-IsKept _)
    ]

update-IsKept :
    (s : Store) (c id : Text) (patch : List (Text × Value)) (now : Value)
    → IsKept s
    → IsKept (update s c id patch now).0
unfolding update
update-IsKept s c id patch now h =
    elim (Option-cases (find_first (with_id id) (items s.tables c))) [
      | inl e ↦ rw (e, update) (with_coll-IsKept s c h)
      | inr (x, e) ↦ rw (e, update) (save-IsKept _)
    ]

remove-IsKept : (s : Store) (c id : Text) → IsKept s → IsKept (remove s c id).0
unfolding remove
remove-IsKept s c id h = elim (Option-cases (find_first (with_id id) (items s.tables c))) [
  | inl e ↦ rw (e, remove) (with_coll-IsKept s c h)
  | inr (x, e) ↦ rw (e, remove) (save-IsKept _)
]

remove_where-IsKept :
    (s : Store) (c : Text) (test : Item → Bool) → IsKept s → IsKept (remove_where s c test).0
unfolding remove_where
remove_where-IsKept s c test h = elim (Bool-cases (is_empty (select test (items s.tables c)))) [
  | inl e ↦ rw e (with_coll-IsKept s c h)
  | inr e ↦ rw e (save-IsKept _)
]

get-IsKept : (s : Store) (c : Text) (id : Option Text) → IsKept s → IsKept (get s c id).0
unfolding get
get-IsKept s c none h = h
get-IsKept s c (some id) h = with_coll-IsKept s c h

-- A call of the store's operations, or its timer, while every write succeeds.
pub data Use (s : Store) : Store → Type 0 where
  listed : (c : Text) (test : Item → Bool) → Use s (list s c test).0
  got : (c : Text) (id : Option Text) → Use s (get s c id).0
  added : (c : Text) (x : Item) (new : Text) (now : Value) → Use s (after (insert s c x new now))
  updated :
      (c id : Text) (patch : List (Text × Value)) (now : Value) → Use s (update s c id patch now).0
  removed : (c id : Text) → Use s (remove s c id).0
  removed_many : (c : Text) (test : Item → Bool) → Use s (remove_where s c test).0
  fired : Use s (fire s true)

-- What a panel does with its store, in any order. The flag tells whether a caller has changed a
-- record in place and not called `save` since.
pub data Used (s : Store) : Bool → Store → Type 0 where
  unused : Used s false s
  and_then : {b : Bool} {t u : Store} → Used s b t → Use t u → Used s b u
  and_altered :
      {b : Bool} {t : Store}
      → Used s b t
      → (c : Text) (n : ℕ) (f : Item → Item) → Used s true (alter t c n f)
  and_saved : {b : Bool} {t : Store} → Used s b t → Used s false (save t)
  and_saved_now : {b : Bool} {t : Store} → Used s b t → Used s false (save_now t true)

Use-IsKept : {s t : Store} → Use s t → IsKept s → IsKept t
unfolding list
Use-IsKept {s} (listed c test) h = with_coll-IsKept s c h
Use-IsKept {s} (got c id) h = get-IsKept s c id h
Use-IsKept {s} (added c x new now) h = insert-IsKept s c x new now h
Use-IsKept {s} (updated c id patch now) h = update-IsKept s c id patch now h
Use-IsKept {s} (removed c id) h = remove-IsKept s c id h
Use-IsKept {s} (removed_many c test) h = remove_where-IsKept s c test h
Use-IsKept {s} fired h = fire-IsKept s h

Used-steps :
    {s t : Store} {b : Bool}
    → Used s b t
    → b ≡ false
    → ((c : Text) → items s.file c ≡ map json_item (items s.tables c))
    → IsKept t
Used-steps unused e f = stored f
Used-steps (and_then r u) e f = Use-IsKept u (Used-steps r e f)
Used-steps (and_altered r c n g) e f = cc
Used-steps (and_saved {t = t} r) e f = save-IsKept t
Used-steps (and_saved_now {t = t} r) e f = save_now-IsKept t

-- While every write succeeds, a store that starts in agreement with its file either is read-only,
-- or has a write due, or its file holds every record of every collection as JSON keeps it, after any
-- number of operations and of changes of records in place, in any order, when `save` was called
-- after the last such change.
pub Used-IsKept :
    {s t : Store}
    → Used s false t
    → ((c : Text) → items s.file c ≡ map json_item (items s.tables c))
    → IsKept t
Used-IsKept r f = Used-steps r refl f
