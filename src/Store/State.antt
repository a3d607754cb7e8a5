-- ===== src/Store/State.antt =====
-- The store and its operations, panel/lib/store.mjs. New ids, times and the outcome of a write are
-- inputs; a filter is a Boolean test. The file holds what was last written to it, as JSON keeps it.
-- The records that `list`, `get` and `insert` return are live: a caller's later change of one is a
-- step of its own, `alter`.
use forthway_command_center.Base.{
  ℕ, zero, suc, ◌==◌, map, Number, is_finite, Bool, true, false, not, Option, none, some, List, [],
  ◌∷◌, ◌++◌, if◌then◌else◌, any, find_first, select, Text, codes, text_eq, Value, map_get, map_set,
}

-- A record: its id, empty when it has none, and its other fields.
pub record Item : Type 0 where
  pub id : Text
  pub fields : List (Text × Value)

abbrev pub Data : Type 0
Data = List (Text × List Item)

-- `timer` tells whether a write is due.
pub record Store : Type 0 where
  pub tables : Data
  pub timer : Bool
  pub read_only : Bool
  pub file : Data

unfoldable pub items : Data → Text → List Item
items d c = elim (map_get d c) [ none ↦ [] | some xs ↦ xs ]

-- `_coll`: a collection that is not there becomes an empty one.
unfoldable pub with_coll : Store → Text → Store
with_coll s c = elim (map_get s.tables c) [
  | none ↦ record s { tables = map_set s.tables c [] }
  | some _ ↦ s
]

-- What `JSON.stringify` keeps of a field: not `undefined`, and no number that is not finite. An object
-- stands for its tree as it is written.
unfoldable pub json_value : Value → Option Value
json_value Value.undefined = none
json_value (Value.num x) = some (if is_finite x then Value.num x else Value.null)
json_value v = some v

unfoldable pub json_fields : List (Text × Value) → List (Text × Value)
unfolding json_value
json_fields [] = []
json_fields ((k, v) ∷ vs) =
    let rest = json_fields vs in elim (json_value v) [ none ↦ rest | some w ↦ (k, w) ∷ rest ]

unfoldable pub json_item : Item → Item
unfolding json_fields
json_item x = record x { fields = json_fields x.fields }

-- `JSON.stringify` of the data.
unfoldable pub stringified : Data → Data
stringified [] = []
stringified ((c, xs) ∷ d) = (c, map json_item xs) ∷ stringified d

-- `_write`
unfoldable pub write : Store → Bool → Store
write s good =
    if s.read_only then s else if good then record s { file = stringified s.tables } else s

-- `save()`: a write is due, unless one is already.
unfoldable pub save : Store → Store
save s = if s.read_only then s else record s { timer = true }

-- `save({ immediate: true })`
unfoldable pub save_now : Store → Bool → Store
save_now s good = if s.read_only then s else write (record s { timer = false }) good

-- The timer of `save` runs out.
unfoldable pub fire : Store → Bool → Store
fire s good = if s.timer then write (record s { timer = false }) good else s

-- One record of a collection is changed where it is, by a caller that holds it.
unfoldable pub change_at : ℕ → (Item → Item) → List Item → List Item
change_at n f [] = []
change_at zero f (x ∷ xs) = f x ∷ xs
change_at (suc n) f (x ∷ xs) = x ∷ change_at n f xs

-- Such a change does not save: `mutate one and call db.save()`.
unfoldable pub alter : Store → Text → ℕ → (Item → Item) → Store
unfolding change_at
alter s c n f = elim (map_get s.tables c) [
  | none ↦ s
  | some xs ↦ record s { tables = map_set s.tables c (change_at n f xs) }
]

-- A new list of the records as they are at the call; the records are live (`alter`).
unfoldable pub list : Store → Text → (Item → Bool) → Store × List Item
list s c test = (with_coll s c, select test (items s.tables c))

abbrev pub with_id : Text → Item → Bool
with_id id x = text_eq x.id id

-- The record as it is at the call; it is live (`alter`).
unfoldable pub get : Store → Text → Option Text → Store × Option Item
get s c none = (s, none)
get s c (some id) = (with_coll s c, find_first (with_id id) (items s.tables c))

-- The record that `insert` keeps: with an id, and with the time of its creation.
unfoldable pub named : Item → Text → Item
named x new = elim x.id [ [] ↦ record x { id = new } | (c ∷ t) ↦ x ]

-- A value that `!` makes true.
unfoldable pub is_falsy : Value → Bool
is_falsy Value.undefined = true
is_falsy Value.null = true
is_falsy (Value.bool b) = not b
is_falsy (Value.num Number.nan) = true
is_falsy (Value.num (Number.decimal n)) = n == 0
is_falsy (Value.text [] x) = true
is_falsy v = false

unfoldable pub dated : Item → Value → Item
unfolding is_falsy
dated x now = elim (map_get x.fields (codes "createdAt")) [
  | none ↦ record x { fields = map_set x.fields (codes "createdAt") now }
  | some v ↦
      if is_falsy v then record x { fields = map_set x.fields (codes "createdAt") now } else x
]

pub data Inserted : Type 0 where
  inserted : Store → Item → Inserted
  duplicate : Store → Inserted

unfoldable pub insert : Store → Text → Item → Text → Value → Inserted
unfolding named dated
insert s c x new now =
    let y = named x new in
    let z = dated y now in
    if any (with_id y.id) (items s.tables c)
    then duplicate (with_coll s c)
    else inserted (save (record s { tables = map_set s.tables c (items s.tables c ++ z ∷ []) })) z

-- `Object.assign`
abbrev pub assign : List (Text × Value) → List (Text × Value) → List (Text × Value)
assign m [] = m
assign m ((k, v) ∷ vs) = assign (map_set m k v) vs

-- The first record with this id is changed where it is.
abbrev pub change : Text → (Item → Item) → List Item → List Item
change id f [] = []
change id f (x ∷ xs) = if text_eq x.id id then f x ∷ xs else x ∷ change id f xs

unfoldable pub patched : List (Text × Value) → Value → Item → Item
patched patch now x = record x { fields = map_set (assign x.fields patch) (codes "updatedAt") now }

-- `update`; a patch does not reach the id.
unfoldable pub update : Store → Text → Text → List (Text × Value) → Value → Store × Option Item
unfolding patched
update s c id patch now = elim (find_first (with_id id) (items s.tables c)) [
  | none ↦ (with_coll s c, none)
  | some x ↦ (
    save (record s {
      tables = map_set s.tables c (change id (patched patch now) (items s.tables c));
    }),
    some (patched patch now x),
  )
]

abbrev pub drop_first : Text → List Item → List Item
drop_first id [] = []
drop_first id (x ∷ xs) = if text_eq x.id id then xs else x ∷ drop_first id xs

unfoldable pub remove : Store → Text → Text → Store × Option Item
remove s c id = elim (find_first (with_id id) (items s.tables c)) [
  | none ↦ (with_coll s c, none)
  | some x ↦
      (save (record s { tables = map_set s.tables c (drop_first id (items s.tables c)) }), some x)
]

unfoldable pub is_empty : List Item → Bool
is_empty [] = true
is_empty (x ∷ xs) = false

unfoldable pub remove_where : Store → Text → (Item → Bool) → Store × List Item
unfolding is_empty
remove_where s c test =
    let gone = select test (items s.tables c) in
    if is_empty gone then (with_coll s c, []) else (
      save (record s {
        tables = map_set s.tables c (select (λ x. not (test x)) (items s.tables c));
      }),
      gone,
    )

-- A file when it is read: it is not there, it does not parse, or it holds collections. A JSON value
-- that is no object counts as one without collections.
pub data Contents : Type 0 where
  missing unreadable : Contents
  holds : Data → Contents

abbrev pub collections : List Text
collections =
    codes "admins"
    ∷ codes "projects"
    ∷ codes "sites"
    ∷ codes "releases"
    ∷ codes "servers"
    ∷ codes "databases"
    ∷ codes "backups"
    ∷ codes "jobs"
    ∷ codes "activity"
    ∷ []

-- The known collections first, then the others of the file. A name that every JavaScript object
-- has, such as toString, is not met among the others.
known : Data → List Text → Data
known d [] = []
known d (c ∷ cs) = (c, items d c) ∷ known d cs

others : Data → Data → Data
others seen [] = seen
others seen ((c, xs) ∷ d) = elim (map_get seen c) [
  | none ↦ others (seen ++ (c, xs) ∷ []) d
  | some _ ↦ others seen d
]

unfoldable pub loaded : Data → Data
unfolding known others
loaded d = others (known d collections) d

-- `_load`: the data, or none when the panel must not start.
unfoldable pub load : Contents → Contents → Option Data
load Contents.missing backup = some (loaded [])
load (Contents.holds d) backup = some (loaded d)
load Contents.unreadable (Contents.holds d) = some (loaded d)
load Contents.unreadable Contents.missing = none
load Contents.unreadable Contents.unreadable = none
