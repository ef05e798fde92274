-- ===== src/Operation/Exec/Keeps.antt =====
-- Properties of the events to ignore that an executor's run keeps, one rule for each way to build a run.
use trsync.Base.{
  ◌≡◌, contains, List, [], ◌∷◌, ◌++◌, Option, none, some, Outcome, ok, err, Outcome-cases, inl, inr,
  arith, Bool, true, false, if◌then◌else◌,
}
use trsync.Core.Error.{ExecutorError}
use trsync.Event.{Event, event_eq}
use trsync.Operation.Host.{Host}
use trsync.Operation.Exec.{
  Context, Exec, pure, raise, ◌>>=◌, ◌>>◌, lift, attempt, call, look, push, when, expect,
}

module _ {H : Host} (P : List Event → Type 0) where
  -- The run keeps `P`, whether it succeeds or fails.
  pub record Keeps {ℓ} {A : Type ℓ} (m : Exec H A) : Type ℓ where
    pub at : (c : Context H) → P c.ignore_events → P (m c).1.ignore_events

module _ {H : Host} {P : List Event → Type 0} where
  pub Keeps-pure {ℓ} : {A : Type ℓ} (a : A) → Keeps {H = H} P (pure a)
  unfolding pure
  Keeps-pure a = record { at = λ c p. p }

  pub Keeps-raise {ℓ} : {A : Type ℓ} (e : ExecutorError) → Keeps {H = H} P (raise {A = A} e)
  unfolding raise
  Keeps-raise e = record { at = λ c p. p }

  pub Keeps-lift {ℓ κ} :
      {E : Type ℓ} {A : Type κ} (f : E → ExecutorError) (r : Outcome E A)
      → Keeps {H = H} P (lift f r)
  unfolding lift
  Keeps-lift f (ok a) = record { at = λ c p. p }
  Keeps-lift f (err e) = record { at = λ c p. p }

  pub Keeps-expect {ℓ} : {A : Type ℓ} (o : Option A) → Keeps {H = H} P (expect o)
  unfolding expect
  Keeps-expect none = record { at = λ c p. p }
  Keeps-expect (some a) = record { at = λ c p. p }

  pub Keeps-attempt {ℓ κ} :
      {E : Type ℓ} {A : Type κ} (m : H.World → Outcome E A × H.World) → Keeps {H = H} P (attempt m)
  unfolding attempt
  Keeps-attempt m = record { at = λ c p. p }

  pub Keeps-look {ℓ} : {A : Type ℓ} (f : H.World → A) → Keeps {H = H} P (look f)
  unfolding look
  Keeps-look f = record { at = λ c p. p }

  pub Keeps-bind {ℓ κ} :
      {A : Type ℓ} {B : Type κ} (m : Exec H A) (f : A → Exec H B)
      → Keeps P m
      → ((a : A) → Keeps P (f a))
      → Keeps P (m >>= f)
  unfolding ◌>>=◌
  Keeps-bind m f km kf = record {
    at = λ c p. elim (Outcome-cases (m c).0) [
      | inl (e, q) ↦ ground (arith, km.at c p)
      | inr (a, q) ↦ ground (arith, km.at c p, (kf a).at (m c).1 (km.at c p))
    ];
  }

  pub Keeps-then {ℓ κ} :
      {A : Type ℓ} {B : Type κ} (m : Exec H A) (n : Exec H B)
      → Keeps P m
      → Keeps P n
      → Keeps P (m >> n)
  unfolding ◌>>◌
  Keeps-then m n km kn = Keeps-bind m (λ _. n) km (λ _. kn)

  pub Keeps-call {ℓ} :
      {E A : Type ℓ} (f : E → ExecutorError) (m : H.World → Outcome E A × H.World)
      → Keeps {H = H} P (call f m)
  unfolding call
  Keeps-call f m = Keeps-bind (attempt m) (lift f) (Keeps-attempt m) (λ r. Keeps-lift f r)

  pub Keeps-when : (b : Bool) (m : Exec H (Unit {0})) → Keeps P m → Keeps P (when b m)
  unfolding when pure
  Keeps-when true m k = k
  Keeps-when false m k = Keeps-pure tt

  pub Keeps-if {ℓ} :
      {A : Type ℓ} (b : Bool) (m n : Exec H A)
      → Keeps P m
      → Keeps P n
      → Keeps P (if b then m else n)
  Keeps-if true m n km kn = km
  Keeps-if false m n km kn = kn

  pub Keeps-elim_outcome {ℓ κ μ} :
      {E : Type ℓ} {A : Type κ} {B : Type μ} (r : Outcome E A) (f : A → Exec H B) (g : E → Exec H B)
      → ((a : A) → Keeps P (f a))
      → ((e : E) → Keeps P (g e))
      → Keeps P (elim r [ ok a ↦ f a | err e ↦ g e ])
  Keeps-elim_outcome (ok a) f g kf kg = kf a
  Keeps-elim_outcome (err e) f g kf kg = kg e

  pub Keeps-elim_option {ℓ κ} :
      {A : Type ℓ} {B : Type κ} (o : Option A) (m : Exec H B) (f : A → Exec H B)
      → Keeps P m
      → ((a : A) → Keeps P (f a))
      → Keeps P (elim o [ none ↦ m | some a ↦ f a ])
  Keeps-elim_option none m f km kf = km
  Keeps-elim_option (some a) m f km kf = kf a

-- The event is among those to ignore.
unfoldable pub Kept : Event → List Event → Type 0
Kept e events = contains events e ≡ true

pub contains-append :
    (events more : List Event) (e : Event)
    → contains events e ≡ true
    → contains (events ++ more) e ≡ true
contains-append [] more e p = ground arith
contains-append (x ∷ events) more e p = ground (arith, contains-append events more e)

module _ {H : Host} (e : Event) where
  pub Keeps-push : (f : Event) → Keeps {H = H} (Kept e) (push f)
  unfolding Kept push
  Keeps-push f = record { at = λ c p. contains-append c.ignore_events (f ∷ []) e p }

pub ruleset keeps_rules = (
  Keeps-push, Keeps-pure, Keeps-raise, Keeps-lift, Keeps-expect, Keeps-attempt, Keeps-look,
  Keeps-bind, Keeps-then, Keeps-call, Keeps-when, Keeps-if, Keeps-elim_outcome, Keeps-elim_option,
)
