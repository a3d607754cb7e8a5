-- ===== src/Passkeys/Challenges/Sublists.antt =====
-- What deleting does to the challenges of panel/lib/webauthn.mjs: some are left, in their order.
use forthway_command_center.Base.{
  ℕ, zero, suc, ◌≤◌, ◌≡◌, inl, inr, Bool, true, List, [], ◌∷◌, leb, Text, text_eq, select, count,
  length, map_delete, lacks, IsMap, arith, Bool-cases,
}
use forthway_command_center.Passkeys.Challenges.{Issued, delete_first, make_room}

-- A list of all challenges but some, in their order.
pub data Sub : List (Text × Issued) → List (Text × Issued) → Type 0 where
  none_left : Sub [] []
  drop : {x : Text × Issued} {l m : List (Text × Issued)} → Sub l m → Sub l (x ∷ m)
  keep : {x : Text × Issued} {l m : List (Text × Issued)} → Sub l m → Sub (x ∷ l) (x ∷ m)

pub Sub-refl : (m : List (Text × Issued)) → Sub m m
Sub-refl [] = none_left
Sub-refl (x ∷ m) = keep (Sub-refl m)

pub Sub-trans : {l m n : List (Text × Issued)} → Sub l m → Sub m n → Sub l n
Sub-trans s none_left = s
Sub-trans s (drop t) = drop (Sub-trans s t)
Sub-trans (drop s) (keep t) = drop (Sub-trans s t)
Sub-trans (keep s) (keep t) = keep (Sub-trans s t)

pub Sub-select : (p : Text × Issued → Bool) (m : List (Text × Issued)) → Sub (select p m) m
Sub-select p [] = none_left
Sub-select p (x ∷ m) = elim (Bool-cases (p x)) [
  | inl e ↦ rw e (keep (Sub-select p m))
  | inr e ↦ rw e (drop (Sub-select p m))
]

pub Sub-map_delete : (m : List (Text × Issued)) (k : Text) → Sub (map_delete m k) m
unfolding map_delete
Sub-map_delete [] k = none_left
Sub-map_delete ((j, b) ∷ m) k = elim (Bool-cases (text_eq j k)) [
  | inl e ↦ rw e (drop (Sub-refl m))
  | inr e ↦ rw e (keep (Sub-map_delete m k))
]

pub Sub-delete_first : (n : ℕ) (mine m : List (Text × Issued)) → Sub (delete_first n mine m) m
unfolding delete_first
Sub-delete_first zero mine m = Sub-refl m
Sub-delete_first (suc n) [] m = Sub-refl m
Sub-delete_first (suc n) ((c, r) ∷ mine) m =
    Sub-trans (Sub-delete_first n mine (map_delete m c)) (Sub-map_delete m c)

pub Sub-make_room : (max : ℕ) (m : List (Text × Issued)) → Sub (make_room max m) m
unfolding make_room
Sub-make_room max [] = none_left
Sub-make_room max (x ∷ m) = elim (Bool-cases (leb max (length (x ∷ m)))) [
  | inl e ↦ rw e (drop (Sub-make_room max m))
  | inr e ↦ rw e (Sub-refl (x ∷ m))
]

pub count-Sub :
    (p : Text × Issued → Bool) {l m : List (Text × Issued)} → Sub l m → count p l ≤ count p m
count-Sub p none_left = omega arith
count-Sub p (drop s) = ground (arith, count-Sub p s)
count-Sub p (keep s) = ground (arith, count-Sub p s)

pub lacks-Sub :
    (k : Text) {l m : List (Text × Issued)} → Sub l m → lacks k m ≡ true → lacks k l ≡ true
lacks-Sub k none_left h = h
lacks-Sub k (drop s) h = ground (arith, lacks-Sub k s)
lacks-Sub k (keep s) h = ground (arith, lacks-Sub k s)

pub IsMap-Sub : {l m : List (Text × Issued)} → Sub l m → IsMap m → IsMap l
IsMap-Sub none_left h = h
IsMap-Sub (drop s) h = IsMap-Sub s h.1
IsMap-Sub (keep s) h = (lacks-Sub _ s h.0, IsMap-Sub s h.1)
