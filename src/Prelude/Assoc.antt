-- ===== src/Prelude/Assoc.antt =====
-- Finite maps keyed by text, as association lists: files in a directory, Go maps.
use mathlib.Core.Path.{◌≡◌, refl}
use mathlib.Core.Bool.{false}
use mathlib.Core.Option.{Option, none, some}
use mathlib.Core.List.{List, [], ◌∷◌}
use native.Mathlib.Omega.{arith}
use goat_client.Prelude.Tests.{if◌then◌else◌}
use goat_client.Prelude.Strings.{Str, same, same_iff}

module _ {ℓ} {V : Type ℓ} where
  unfoldable pub lookup : Str → List (Str × V) → Option V
  lookup k [] = none
  lookup k ((j, v) ∷ m) = if same j k then some v else lookup k m

  unfoldable pub insert : Str → V → List (Str × V) → List (Str × V)
  insert k v [] = (k, v) ∷ []
  insert k v ((j, w) ∷ m) = if same j k then (k, v) ∷ m else (j, w) ∷ insert k v m

  -- Every entry of the key goes.
  unfoldable pub delete : Str → List (Str × V) → List (Str × V)
  delete k [] = []
  delete k ((j, v) ∷ m) = let rest = delete k m in if same j k then rest else (j, v) ∷ rest

  pub lookup-insert :
      (k j : Str) (v : V) (m : List (Str × V))
      → lookup j (insert k v m) ≡ (if same k j then some v else lookup j m)
  unfolding lookup insert
  lookup-insert k j v [] = refl
  lookup-insert k j v ((i, w) ∷ m) =
      ground (arith, same_iff k j, same_iff i k, same_iff i j, lookup-insert k j v m)

  pub lookup-delete :
      (k j : Str) (m : List (Str × V))
      → lookup j (delete k m) ≡ (if same k j then none else lookup j m)
  unfolding lookup delete
  lookup-delete k j [] = ground arith
  lookup-delete k j ((i, w) ∷ m) =
      ground (arith, same_iff k j, same_iff i k, same_iff i j, lookup-delete k j m)

module _ {ℓ} {V : Type ℓ} (k j : Str) (m : List (Str × V)) where
  pub lookup-insert_ne : (v : V) → same k j ≡ false → lookup j (insert k v m) ≡ lookup j m
  lookup-insert_ne v e = ground (arith, lookup-insert k j v m)

  pub lookup-delete_ne : same k j ≡ false → lookup j (delete k m) ≡ lookup j m
  lookup-delete_ne e = ground (arith, lookup-delete k j m)

pub same_sym : (s t : Str) → same s t ≡ false → same t s ≡ false
same_sym s t e = ground (arith, same_iff s t, same_iff t s)

module _ {ℓ} {V : Type ℓ} (k : Str) (m : List (Str × V)) where
  pub lookup-insert_self : (v : V) → lookup k (insert k v m) ≡ some v
  lookup-insert_self v = ground (arith, lookup-insert k k v m, same_iff k k)

  pub lookup-delete_self : lookup k (delete k m) ≡ none
  lookup-delete_self = ground (arith, lookup-delete k k m, same_iff k k)
