-- ===== src/Base/Dict.antt =====
-- A Go map with string keys, as the list of its entries. The order of the list is the order of a
-- `range` over the map, which Go leaves open.
use mipttest_task.Base.{
  Str, eq_str, eq_str_iff, ◌≡◌, refl, Option, none, some, List, [], ◌∷◌, arith, if◌then◌else◌,
}

abbrev pub Dict {ℓ} : Type ℓ → Type ℓ
Dict V = List (Str × V)

module _ {ℓ} {V : Type ℓ} where
  -- `v, ok := m[k]`
  unfoldable pub lookup : Str → Dict V → Option V
  lookup k [] = none
  lookup k ((j, v) ∷ m) = if eq_str j k then some v else lookup k m

  -- `m[k] = v`
  unfoldable pub insert : Str → V → Dict V → Dict V
  insert k v [] = (k, v) ∷ []
  insert k v ((j, w) ∷ m) = if eq_str j k then (k, v) ∷ m else (j, w) ∷ insert k v m

  -- `delete(m, k)`
  unfoldable pub erase : Str → Dict V → Dict V
  erase k [] = []
  erase k ((j, w) ∷ m) = if eq_str j k then erase k m else (j, w) ∷ erase k m

  -- `m[k]`, the zero value where the key is missing
  abbrev pub get_or : Dict V → Str → V → V
  get_or m k zero_value = elim (lookup k m) [ none ↦ zero_value | some v ↦ v ]

  pub lookup-insert :
      (k j : Str) (v : V) (m : Dict V)
      → lookup j (insert k v m) ≡ (if eq_str k j then some v else lookup j m)
  unfolding lookup insert
  lookup-insert k j v [] = refl
  lookup-insert k j v ((i, w) ∷ m) =
      ground (arith, eq_str_iff k j, eq_str_iff i k, eq_str_iff i j, lookup-insert k j v m)

  pub lookup-erase :
      (k j : Str) (m : Dict V) → lookup j (erase k m) ≡ (if eq_str k j then none else lookup j m)
  unfolding lookup erase
  lookup-erase k j [] = ground arith
  lookup-erase k j ((i, w) ∷ m) =
      ground (arith, eq_str_iff k j, eq_str_iff i k, eq_str_iff i j, lookup-erase k j m)
