-- ===== src/Base/Lists.antt =====
-- Lists measured by native numbers, membership and `filter` by a Boolean test.
use Prim.Native.Nat.{ℕ, suc, ◌+◌}
use mathlib.Core.Path.{◌≡◌, refl, ap}
use mathlib.Core.Logic.{inl, inr}
use mathlib.Core.Bool.{Bool, cond, ◌&&◌, ◌||◌}
use mathlib.Core.Option.{Option, none, some}
use mathlib.Core.List.{List, [], ◌∷◌, ◌++◌}
use native.Mathlib.Omega.{arith}
use trsync.Base.Equality.{Eq, contains, Bool-cases}

module _ {ℓ} {A : Type ℓ} where
  abbrev pub length : List A → ℕ
  length [] = 0
  length (x ∷ xs) = suc (length xs)

  pub length-append : (xs ys : List A) → length (xs ++ ys) ≡ length xs + length ys
  length-append [] ys = omega arith
  length-append (x ∷ xs) ys = omega (arith, length-append xs ys)

  -- `iter().filter(p).collect()`
  abbrev pub filter : (A → Bool) → List A → List A
  filter p [] = []
  filter p (x ∷ xs) = let rest = filter p xs in cond (p x) (x ∷ rest) rest

  -- `iter().find(p)`
  abbrev pub find : (A → Bool) → List A → Option A
  find p [] = none
  find p (x ∷ xs) = cond (p x) (some x) (find p xs)

module _ {K : Type 0} ⦃e : Eq K⦄ where
  pub contains-filter :
      (f : K → Bool) (xs : List K) (k : K) → contains (filter f xs) k ≡ (contains xs k && f k)
  contains-filter f [] k = refl
  contains-filter f (x ∷ xs) k = elim (e.dec x k) [
    | yes p ↦ elim (Bool-cases (f x)) [
      | inl q ↦ ground (arith, ap f p, contains-filter f xs k)
      | inr q ↦ ground (arith, ap f p, contains-filter f xs k)
    ]
    | no n ↦ elim (Bool-cases (f x)) [
      | inl q ↦ ground (arith, contains-filter f xs k)
      | inr q ↦ ground (arith, contains-filter f xs k)
    ]
  ]

  pub contains-append_or :
      (xs ys : List K) (k : K) → contains (xs ++ ys) k ≡ (contains xs k || contains ys k)
  contains-append_or [] ys k = refl
  contains-append_or (x ∷ xs) ys k = ground (arith, contains-append_or xs ys k)

module _ {ℓ κ} {A : Type ℓ} (P : A → Type κ) where
  abbrev pub All : List A → Type κ
  All [] = Unit
  All (x ∷ xs) = P x × All xs
