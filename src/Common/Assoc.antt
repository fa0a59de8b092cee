-- ===== src/Common/Assoc.antt =====
-- A Go map with string keys, as an association list with at most one entry for a key that is put in.
use mathlib.Core.Path.{◌≡◌, refl}
use mathlib.Core.Option.{Option, none, some}
use mathlib.Core.List.{List, [], ◌∷◌}
use native.Mathlib.Omega.{arith}
use aztunnel.Common.Tests.{if◌then◌else◌}
use aztunnel.Common.Text.{Bytes, bytes_eq, bytes_eq_refl, eq_of_bytes_eq}

module _ {ℓ} {A : Type ℓ} where
  unfoldable pub lookup : Bytes → List (Bytes × A) → Option A
  lookup k [] = none
  lookup k ((j, v) ∷ m) = let rest = lookup k m in if bytes_eq j k then some v else rest

  -- `m[k] = v`
  unfoldable pub insert : Bytes → A → List (Bytes × A) → List (Bytes × A)
  insert k v [] = (k, v) ∷ []
  insert k v ((j, w) ∷ m) =
      let rest = insert k v m in if bytes_eq j k then (j, v) ∷ m else (j, w) ∷ rest

  -- `delete(m, k)`
  unfoldable pub erase : Bytes → List (Bytes × A) → List (Bytes × A)
  erase k [] = []
  erase k ((j, w) ∷ m) = let rest = erase k m in if bytes_eq j k then rest else (j, w) ∷ rest

  pub lookup-insert :
      (j k : Bytes) (v : A) (m : List (Bytes × A))
      → lookup j (insert k v m) ≡ (if bytes_eq k j then some v else lookup j m)
  unfolding lookup insert
  lookup-insert j k v [] = refl
  lookup-insert j k v ((i, w) ∷ m) = ground (
    arith,
    lookup-insert j k v m,
    eq_of_bytes_eq i k,
    eq_of_bytes_eq i j,
    eq_of_bytes_eq k j,
    bytes_eq_refl i,
    bytes_eq_refl k,
    bytes_eq_refl j,
  )

  pub lookup-erase :
      (j k : Bytes) (m : List (Bytes × A))
      → lookup j (erase k m) ≡ (if bytes_eq k j then none else lookup j m)
  unfolding lookup erase
  lookup-erase j k [] = ground arith
  lookup-erase j k ((i, w) ∷ m) = ground (
    arith,
    lookup-erase j k m,
    eq_of_bytes_eq i k,
    eq_of_bytes_eq i j,
    eq_of_bytes_eq k j,
    bytes_eq_refl i,
    bytes_eq_refl k,
    bytes_eq_refl j,
  )
