-- ===== src/Base/Equality.antt =====
-- Rust's `==` (the derived `PartialEq`), for every type whose equality can be decided.
use Prim.Native.Nat.{ℕ}
use Prim.Native.String.{String}
use mathlib.Core.Path.{◌≡◌, refl, ap, ap₂}
use mathlib.Core.Logic.{◌≢◌, ◌⊎◌, inl, inr, ite, dite}
use mathlib.Core.Bool.{Bool, true, false, cond, ◌||◌, Bool-discrete}
use mathlib.Core.Option.{Option, none, some, some-injective}
use mathlib.Core.List.{List, [], ◌∷◌, nil≢cons, head-eq_of_cons-eq, tail-eq_of_cons-eq}
use native.Mathlib.Decide.{ℕ_discrete}
use native.Mathlib.Omega.{arith}
use text.Mathlib.Text
use text.Mathlib.TextEquality.{eq_iff}

infix 1 if◌then◌else◌
abbrev pub if◌then◌else◌ {ℓ} : {A : Type ℓ} → Bool → A → A → A
if b then x else y = cond b x y

-- To split on a computed value and keep the equation.
pub Bool-cases : (b : Bool) → (b ≡ true) ⊎ (b ≡ false)
Bool-cases true = inl refl
Bool-cases false = inr refl

pub Option-cases {ℓ} : {A : Type ℓ} (o : Option A) → (o ≡ none) ⊎ ((a : A) × (o ≡ some a))
Option-cases none = inl refl
Option-cases (some a) = inr (a, refl)

pub record Eq {ℓ} (A : Type ℓ) : Type ℓ where
  pub dec : Discrete A

module _ {ℓ} {A : Type ℓ} ⦃e : Eq A⦄ where
  infix 50 ◌==◌
  abbrev pub ◌==◌ : A → A → Bool
  a == b = ite (e.dec a b) true false

  -- `Vec::contains`
  abbrev pub contains : List A → A → Bool
  contains [] a = false
  contains (x ∷ xs) a = x == a || contains xs a

  -- `Vec::retain(|x| x != a)`
  abbrev pub without : A → List A → List A
  without a [] = []
  without a (x ∷ xs) = let rest = without a xs in if x == a then rest else x ∷ rest

  pub contains-without :
      (a b : A) (xs : List A)
      → contains (without a xs) b ≡ (if a == b then false else contains xs b)
  contains-without a b [] = ground arith
  contains-without a b (x ∷ xs) = ground (arith, contains-without a b xs)

  pub contains-without_self : (a : A) (xs : List A) → contains (without a xs) a ≡ false
  contains-without_self a xs = ground (arith, contains-without a a xs)

  pub contains-without_other :
      (a b : A) (xs : List A) → a ≢ b → contains (without a xs) b ≡ contains xs b
  contains-without_other a b xs n = ground (arith, contains-without a b xs)

  list_dec : Discrete (List A)
  list_dec [] [] = yes refl
  list_dec [] (y ∷ ys) = no nil≢cons
  list_dec (x ∷ xs) [] = no (λ p. cc)
  list_dec (x ∷ xs) (y ∷ ys) =
      dite (e.dec x y)
        (λ p. elim (list_dec xs ys) [
          | yes q ↦ yes (ap₂ ◌∷◌ p q)
          | no n ↦ no (λ r. n (tail-eq_of_cons-eq r))
        ])
        (λ n. no (λ r. n (head-eq_of_cons-eq r)))

  instance unfoldable pub list_eq : Eq (List A)
  unfolding list_dec
  list_eq = record { dec = list_dec }

  option_dec : Discrete (Option A)
  option_dec none none = yes refl
  option_dec none (some b) = no (λ p. cc)
  option_dec (some a) none = no (λ p. cc)
  option_dec (some a) (some b) =
      dite (e.dec a b) (λ p. yes (ap some p)) (λ n. no (λ p. n (some-injective a b p)))

  instance unfoldable pub option_eq : Eq (Option A)
  unfolding option_dec
  option_eq = record { dec = option_dec }

instance unfoldable pub nat_eq : Eq ℕ
unfolding ℕ_discrete
nat_eq = record { dec = ℕ_discrete }

-- Shut in proofs, where a split on `s == t` yields the equation or its negation.
instance unfoldable pub string_eq : Eq String
string_eq = record {
  dec = λ s t.
      dite (Bool-discrete (Text.◌==◌ s t) true) (λ same. yes ((eq_iff s t).0 same))
        (λ differ. no (λ p. differ ((eq_iff s t).1 p)));
}
