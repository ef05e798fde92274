-- ===== src/Base/HashMap.antt =====
-- `std::collections::HashMap` as an association list, in the order in which it is iterated.
use mathlib.Core.Path.{◌≡◌, refl}
use mathlib.Core.Bool.{Bool, true, false}
use mathlib.Core.Option.{Option, none, some}
use mathlib.Core.List
use mathlib.Core.List.{List, [], ◌∷◌}
use native.Mathlib.Omega.{arith}
use trsync.Base.Equality.{Eq, ◌==◌, if◌then◌else◌}

abbrev pub HashMap {ℓ κ} : Type ℓ → Type κ → Type (ℓ ⊔ κ)
HashMap K V = List (K × V)

abbrev pub keys {ℓ κ} : {K : Type ℓ} {V : Type κ} → HashMap K V → List K
keys = List.map (λ (k, _). k)

abbrev pub values {ℓ κ} : {K : Type ℓ} {V : Type κ} → HashMap K V → List V
values = List.map (λ (_, v). v)

module _ {ℓ κ} {K : Type ℓ} {V : Type κ} ⦃e : Eq K⦄ where
  abbrev pub lookup : K → HashMap K V → Option V
  lookup k [] = none
  lookup k ((j, v) ∷ m) = if k == j then some v else lookup k m

  -- `contains_key`
  abbrev pub contains_key : HashMap K V → K → Bool
  contains_key m k = elim (lookup k m) [ none ↦ false | some v ↦ true ]

  unfoldable pub insert : K → V → HashMap K V → HashMap K V
  insert k v [] = (k, v) ∷ []
  insert k v ((j, w) ∷ m) = if k == j then (k, v) ∷ m else (j, w) ∷ insert k v m

  unfoldable pub remove : K → HashMap K V → HashMap K V
  remove k [] = []
  remove k ((j, w) ∷ m) = let rest = remove k m in if k == j then rest else (j, w) ∷ rest

  -- No key has two entries.
  abbrev pub NodupKeys : HashMap K V → Type κ
  NodupKeys [] = Unit
  NodupKeys ((k, _) ∷ m) = (lookup k m ≡ none) × NodupKeys m

  pub lookup-insert :
      (j k : K) (v : V) (m : HashMap K V)
      → lookup j (insert k v m) ≡ (if j == k then some v else lookup j m)
  unfolding insert
  lookup-insert j k v [] = refl
  lookup-insert j k v (_ ∷ m) = ground (arith, lookup-insert j k v m)

  pub lookup-remove :
      (j k : K) (m : HashMap K V) → lookup j (remove k m) ≡ (if j == k then none else lookup j m)
  unfolding remove
  lookup-remove j k [] = ground arith
  lookup-remove j k (_ ∷ m) = ground (arith, lookup-remove j k m)

  pub insert-NodupKeys : (k : K) (v : V) (m : HashMap K V) → NodupKeys m → NodupKeys (insert k v m)
  unfolding insert
  insert-NodupKeys k v [] _ = (refl, tt)
  insert-NodupKeys k v ((j, _) ∷ m) (fresh, u) =
      ground (arith, insert-NodupKeys k v m u, lookup-insert j k v m)

  pub remove-NodupKeys : (k : K) (m : HashMap K V) → NodupKeys m → NodupKeys (remove k m)
  unfolding remove
  remove-NodupKeys k [] _ = tt
  remove-NodupKeys k ((j, _) ∷ m) (fresh, u) =
      ground (arith, remove-NodupKeys k m u, lookup-remove j k m)
