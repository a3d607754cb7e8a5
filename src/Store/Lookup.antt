-- ===== src/Store/Lookup.antt =====
-- What get finds after a change, panel/lib/store.mjs.
use forthway_command_center.Base.{
  ◌≡◌, refl, sym, ap, subst, ◌∙◌, inl, inr, true, false, none, some, List, [], ◌∷◌, ◌++◌, any,
  find_first, arith, Text, text_eq, text_eq_iff, text_eq_refl, Value, map_set, map_get-map_set,
  Bool-cases, Option-cases,
}
use forthway_command_center.Store.Pending.{with_coll-items}
use forthway_command_center.Store.State.{
  Store, Item, Data, items, with_id, save, get, named, dated, insert, inserted, update, patched,
  change, remove, drop_first,
}

items-map_set : (d : Data) (c : Text) (xs : List Item) → items (map_set d c xs) c ≡ xs
unfolding items
items-map_set d c xs = ground (arith, map_get-map_set d c c xs, text_eq_refl c)

save-tables : (s : Store) → (save s).tables ≡ s.tables
unfolding save
save-tables s = ground arith

items-save :
    (s : Store) (c : Text) (xs : List Item)
    → items (save (record s { tables = map_set s.tables c xs })).tables c ≡ xs
items-save s c xs =
    ap (λ d. items d c) (save-tables (record s { tables = map_set s.tables c xs }))
    ∙ items-map_set s.tables c xs

find_first-append :
    (id : Text) (xs : List Item) (z : Item)
    → any (with_id id) xs ≡ false
    → text_eq z.id id ≡ true
    → find_first (with_id id) (xs ++ z ∷ []) ≡ some z
find_first-append id [] z h e = ground arith
find_first-append id (x ∷ xs) z h e = ground (arith, find_first-append id xs z)

dated-id : (x : Item) (now : Value) → (dated x now).id ≡ x.id
unfolding dated
dated-id x now = ground arith

inserted_store : {s t : Store} {y z : Item} → inserted s y ≡ inserted t z → s ≡ t
inserted_store h = cc

insert-kept :
    (s : Store) (c : Text) (x : Item) (new : Text) (now : Value) {t : Store} {z : Item}
    → insert s c x new now ≡ inserted t z
    → (any (with_id (named x new).id) (items s.tables c) ≡ false)
      × (z ≡ dated (named x new) now)
      × (t.tables ≡ map_set s.tables c (items s.tables c ++ z ∷ []))
unfolding insert
insert-kept s c x new now {t = t} {z = z} h =
    elim (Bool-cases (any (with_id (named x new).id) (items s.tables c))) [
      | inl e ↦ absurd (cc (rw e at h))
      | inr e ↦
          let k = rw e at h in
          let same : z ≡ dated (named x new) now = cc k in
          (
            e,
            same,
            ap (λ u. u.tables) (sym (inserted_store k))
                ∙ save-tables _
                ∙ ap (λ y. map_set s.tables c (items s.tables c ++ y ∷ [])) (sym same),
          )
    ]

-- A record that was inserted is what get finds under its id.
pub get-insert :
    (s : Store) (c : Text) (x : Item) (new : Text) (now : Value) (t : Store) (z : Item)
    → insert s c x new now ≡ inserted t z
    → (get t c (some z.id)).1 ≡ some z
unfolding get
get-insert s c x new now t z h =
    let (fresh, same, put) = insert-kept s c x new now h in
    let e : z.id ≡ (named x new).id = ap (λ y. y.id) same ∙ dated-id (named x new) now in
    ap (find_first (with_id z.id)) (ap (λ d. items d c) put ∙ items-map_set s.tables c _)
    ∙ find_first-append z.id (items s.tables c) z (rw e fresh) (text_eq_refl z.id)

find_first-change :
    (id : Text) (f : Item → Item) (xs : List Item) {x : Item}
    → ((y : Item) → (f y).id ≡ y.id)
    → find_first (with_id id) xs ≡ some x
    → find_first (with_id id) (change id f xs) ≡ some (f x)
find_first-change id f [] k h = cc
find_first-change id f (y ∷ ys) {x} k h = elim (Bool-cases (text_eq y.id id)) [
  | inl e ↦ ground (arith, e, k y)
  | inr e ↦ ground (arith, e, find_first-change id f ys {x = x} k)
]

patched-id :
    (patch : List (Text × Value)) (now : Value) (x : Item) → (patched patch now x).id ≡ x.id
unfolding patched
patched-id patch now x = refl

find_first-id :
    (id : Text) (xs : List Item) {x : Item} → find_first (with_id id) xs ≡ some x → x.id ≡ id
find_first-id id [] h = cc
find_first-id id (y ∷ ys) {x} h = ground (arith, text_eq_iff y.id id, find_first-id id ys {x = x})

-- A record that was updated is found under its old id, with the patch.
pub get-update :
    (s : Store) (c id : Text) (patch : List (Text × Value)) (now : Value) (x : Item)
    → (get s c (some id)).1 ≡ some x
    → ((get (update s c id patch now).0 c (some id)).1 ≡ some (patched patch now x))
      × ((patched patch now x).id ≡ id)
unfolding get update
get-update s c id patch now x h = (
  rw (h, update)
      (ap (find_first (with_id id)) (items-save s c _)
        ∙ find_first-change id (patched patch now) (items s.tables c) (λ y. patched-id patch now y)
            h),
  patched-id patch now x ∙ find_first-id id (items s.tables c) h,
)

-- Different records of a collection have different ids.
abbrev pub HasDistinctIds : List Item → Type 0
HasDistinctIds [] = Unit
HasDistinctIds (x ∷ xs) = (any (with_id x.id) xs ≡ false) × HasDistinctIds xs

find_first-none :
    (id : Text) (xs : List Item) → any (with_id id) xs ≡ false → find_first (with_id id) xs ≡ none
find_first-none id [] h = refl
find_first-none id (x ∷ xs) h = ground (arith, find_first-none id xs)

find_first-drop_first :
    (id : Text) (xs : List Item)
    → HasDistinctIds xs
    → find_first (with_id id) (drop_first id xs) ≡ none
find_first-drop_first id [] h = refl
find_first-drop_first id (x ∷ xs) h = elim (Bool-cases (text_eq x.id id)) [
  | inl e ↦ rw e (
      find_first-none id xs
        (subst (λ i. any (with_id i) xs ≡ false) ((text_eq_iff x.id id).0 e) h.0))
  | inr e ↦ ground (arith, e, find_first-drop_first id xs h.1)
]

-- A record that was removed from a collection with different ids is not found any more.
pub get-remove :
    (s : Store) (c id : Text)
    → HasDistinctIds (items s.tables c)
    → (get (remove s c id).0 c (some id)).1 ≡ none
unfolding get remove
get-remove s c id h = elim (Option-cases (find_first (with_id id) (items s.tables c))) [
  | inl e ↦ rw (e, remove) (ap (find_first (with_id id)) (with_coll-items s c c) ∙ e)
  | inr (x, e) ↦
      rw (e, remove)
        (ap (find_first (with_id id)) (items-save s c _)
          ∙ find_first-drop_first id (items s.tables c) h)
]
