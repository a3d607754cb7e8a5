-- ===== src/Store/Checks.antt =====
-- The theorems on the store at a concrete one.
use forthway_command_center.Base.{true, false, Value, [], ◌∷◌, codes, whole}
use forthway_command_center.Store.State.{Store, Item, save, fire, alter, remove, stringified}
use forthway_command_center.Store.Pending.{
  IsKept, unused, and_then, and_altered, and_saved, fired, removed, items-stringified, Used-IsKept,
}

abbrev site : Item
site = record { id = codes "s1"; fields = (codes "createdAt", whole 5) ∷ [] }

abbrev store : Store
store = record {
  tables = (codes "sites", site ∷ []) ∷ [];
  timer = false;
  read_only = false;
  file = stringified ((codes "sites", site ∷ []) ∷ []);
}

noted : Item → Item
noted x = record x { fields = (codes "note", Value.undefined) ∷ x.fields }

-- A record is changed in place, saved and written, and another is removed.
Used-IsKept_example :
    IsKept
      (remove
        (fire (save (alter store (codes "sites") 0 noted)) true)
        (codes "sites")
        (codes "s1")).0
Used-IsKept_example =
    Used-IsKept
      (and_then (and_then (and_saved (and_altered unused (codes "sites") 0 noted)) fired)
        (removed (codes "sites") (codes "s1")))
      (items-stringified store.tables)
