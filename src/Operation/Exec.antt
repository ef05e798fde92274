-- ===== src/Operation/Exec.antt =====
-- An executor's run: it reads the state, changes the world, appends to the events to ignore, and
-- may fail. What it did before a failure stays done.
pub mod Keeps
use trsync.Base.{List, [], ◌∷◌, ◌++◌, Option, none, some, Outcome, ok, err, Bool, true, false}
use trsync.Core.Error.{ExecutorError, tracim, unexpected}
use trsync.Event.{Event}
use trsync.Operation.Host.{Host}

module _ (H : Host) where
  pub record Context : Type 0 where
    pub world : H.World
    pub ignore_events : List Event

  abbrev pub Exec {ℓ} : Type ℓ → Type ℓ
  Exec A = Context → Outcome ExecutorError A × Context

module _ {H : Host} where
  unfoldable pub pure {ℓ} : {A : Type ℓ} → A → Exec H A
  pure a c = (ok a, c)

  unfoldable pub raise {ℓ} : {A : Type ℓ} → ExecutorError → Exec H A
  raise e c = (err e, c)

  abbrev continue {ℓ κ} :
      {A : Type ℓ} {B : Type κ} → Outcome ExecutorError A → (A → Exec H B) → Exec H B
  continue (ok a) f c = f a c
  continue (err e) f c = (err e, c)

  infixl 5 ◌>>=◌ ◌>>◌
  unfoldable pub ◌>>=◌ {ℓ κ} : {A : Type ℓ} {B : Type κ} → Exec H A → (A → Exec H B) → Exec H B
  ◌>>=◌ m f c = let (r, c') = m c in continue r f c'

  unfoldable pub ◌>>◌ {ℓ κ} : {A : Type ℓ} {B : Type κ} → Exec H A → Exec H B → Exec H B
  unfolding ◌>>=◌
  m >> n = m >>= λ _. n

  -- A value that is read; the function makes the executor's error of its error.
  unfoldable pub lift {ℓ κ} :
      {E : Type ℓ} {A : Type κ} → (E → ExecutorError) → Outcome E A → Exec H A
  lift f (ok a) c = (ok a, c)
  lift f (err e) c = (err (f e), c)

  -- `.context(…)?` on an option
  unfoldable pub expect {ℓ} : {A : Type ℓ} → Option A → Exec H A
  unfolding raise pure
  expect none = raise unexpected
  expect (some a) = pure a

  -- A call of the file system or of the client, and its result as a value.
  unfoldable pub attempt {ℓ κ} :
      {E : Type ℓ} {A : Type κ} → (H.World → Outcome E A × H.World) → Exec H (Outcome E A)
  attempt m c = let (r, w) = m c.world in (ok r, record c { world = w })

  -- Such a call with `?`.
  unfoldable pub call {ℓ} :
      {E A : Type ℓ} → (E → ExecutorError) → (H.World → Outcome E A × H.World) → Exec H A
  unfolding attempt ◌>>=◌ lift
  call f m = attempt m >>= lift f

  unfoldable pub look {ℓ} : {A : Type ℓ} → (H.World → A) → Exec H A
  look f c = (ok (f c.world), c)

  -- `ignore_events.push`
  unfoldable pub push : Event → Exec H (Unit {0})
  push e c = (ok tt, record c { ignore_events = c.ignore_events ++ (e ∷ []) })

  unfoldable pub when : Bool → Exec H (Unit {0}) → Exec H (Unit {0})
  unfolding pure
  when true m = m
  when false m = pure tt

-- `.context(…)?`: an `anyhow` error, whatever it was.
abbrev pub context {ℓ} : {E : Type ℓ} → E → ExecutorError
context e = unexpected
