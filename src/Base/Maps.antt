-- ===== src/Base/Maps.antt =====
-- `Map` objects with string keys, in the order of insertion.
use mathlib.Core.Path.{◌≡◌, refl}
use mathlib.Core.Logic.{inl, inr}
use mathlib.Core.Bool.{Bool, true, false, not, ◌&&◌}
use mathlib.Core.List.{List, [], ◌∷◌}
use mathlib.Core.Option.{Option, none, some}
use native.Mathlib.Omega.{arith}
use forthway_command_center.Base.Tests.{if◌then◌else◌, Bool-cases}
use forthway_command_center.Base.Texts.{Text, text_eq, text_eq_iff, text_eq-sym}

module _ {ℓ} {A : Type ℓ} where
  unfoldable pub map_get : List (Text × A) → Text → Option A
  map_get [] k = none
  map_get ((j, a) ∷ m) k = if text_eq j k then some a else map_get m k

  unfoldable pub map_set : List (Text × A) → Text → A → List (Text × A)
  map_set [] k a = (k, a) ∷ []
  map_set ((j, b) ∷ m) k a = if text_eq j k then (j, a) ∷ m else (j, b) ∷ map_set m k a

  unfoldable pub map_delete : List (Text × A) → Text → List (Text × A)
  map_delete [] k = []
  map_delete ((j, b) ∷ m) k = if text_eq j k then m else (j, b) ∷ map_delete m k

  -- No key stands twice.
  abbrev pub lacks : Text → List (Text × A) → Bool
  lacks k [] = true
  lacks k ((j, a) ∷ m) = not (text_eq j k) && lacks k m

  abbrev pub IsMap : List (Text × A) → Type 0
  IsMap [] = Unit
  IsMap ((j, a) ∷ m) = (lacks j m ≡ true) × IsMap m

  pub map_get-map_set :
      (m : List (Text × A)) (k j : Text) (a : A)
      → map_get (map_set m k a) j ≡ (if text_eq k j then some a else map_get m j)
  unfolding map_get map_set
  map_get-map_set [] k j a = refl
  map_get-map_set ((i, b) ∷ m) k j a =
      ground (arith, text_eq_iff i k, text_eq_iff i j, text_eq_iff k j, map_get-map_set m k j a)

  pub map_get-lacks : (m : List (Text × A)) (k : Text) → lacks k m ≡ true → map_get m k ≡ none
  unfolding map_get
  map_get-lacks [] k h = refl
  map_get-lacks ((i, b) ∷ m) k h = ground (arith, map_get-lacks m k)

  pub map_get-map_delete :
      (m : List (Text × A)) (k j : Text)
      → IsMap m
      → map_get (map_delete m k) j ≡ (if text_eq k j then none else map_get m j)
  unfolding map_get map_delete
  map_get-map_delete [] k j h = ground arith
  map_get-map_delete ((i, b) ∷ m) k j h = ground (
    arith,
    text_eq_iff i k,
    text_eq_iff i j,
    text_eq_iff k j,
    map_get-map_delete m k j h.1,
    map_get-lacks m j,
  )

  lacks-map_set :
      (m : List (Text × A)) (k j : Text) (a : A)
      → lacks j m ≡ true
      → text_eq k j ≡ false
      → lacks j (map_set m k a) ≡ true
  unfolding map_set
  lacks-map_set [] k j a h e = ground arith
  lacks-map_set ((i, b) ∷ m) k j a h e = ground (arith, lacks-map_set m k j a)

  pub map_set-IsMap : (m : List (Text × A)) (k : Text) (a : A) → IsMap m → IsMap (map_set m k a)
  unfolding map_set
  map_set-IsMap [] k a h = (refl, tt)
  map_set-IsMap ((i, b) ∷ m) k a h = elim (Bool-cases (text_eq i k)) [
    | inl e ↦ rw e (h.0, h.1)
    | inr e ↦ rw e (lacks-map_set m k i a h.0 (rw (text_eq-sym k i) e), map_set-IsMap m k a h.1)
  ]

  lacks-map_delete :
      (m : List (Text × A)) (k j : Text) → lacks j m ≡ true → lacks j (map_delete m k) ≡ true
  unfolding map_delete
  lacks-map_delete [] k j h = refl
  lacks-map_delete ((i, b) ∷ m) k j h = ground (arith, lacks-map_delete m k j)

  pub map_delete-IsMap : (m : List (Text × A)) (k : Text) → IsMap m → IsMap (map_delete m k)
  unfolding map_delete
  map_delete-IsMap [] k h = tt
  map_delete-IsMap ((i, b) ∷ m) k h = elim (Bool-cases (text_eq i k)) [
    | inl e ↦ rw e h.1
    | inr e ↦ rw e (lacks-map_delete m k i h.0, map_delete-IsMap m k h.1)
  ]
