-- ===== src/State.antt =====
-- trsync/src/state/mod.rs: the trait `State`, and its methods that have a body.
pub mod Forget
pub mod Path
pub mod Memory
pub mod Disk
use trsync.Base.{
  ℕ, zero, suc, ◌≡◌, refl, arith, ◌≢◌, Bool, true, Option, none, some, List, [], ◌∷◌, Outcome, ok,
  err, contains, ◌==◌, nat_eq, if◌then◌else◌, map_err,
}
use trsync.Core.Types.{ContentId, RevisionId, DiskTimestamp, FileName, FilePath}
use trsync.Core.Content.{Anyhow, failed, Content}
use trsync.Core.Error.{StateError, unexpected_error}

-- The required methods. A failing `forgot`, `add` or `update` leaves the state as it was.
pub record State : Type 1 where
  pub Store : Type 0
  pub known : Store → ContentId → Outcome Anyhow Bool
  pub get : Store → ContentId → Outcome Anyhow (Option Content)
  pub content_id_for_path : Store → FilePath → Outcome Anyhow (Option ContentId)
  pub path : Store → ContentId → Outcome StateError (List Content)
  pub contents : Store → Outcome Anyhow (List Content)
  pub direct_children_ids : Store → ContentId → Outcome Anyhow (List ContentId)
  pub forgot : Store → ContentId → Outcome Anyhow Store
  pub add : Store → Content → FilePath → DiskTimestamp → Outcome StateError Store
  pub update :
      Store
      → ContentId
      → FileName
      → RevisionId
      → Option ContentId
      → DiskTimestamp
      → Outcome Anyhow Store

-- trsync/src/state/modification.rs
pub data StateModification : Type 0 where
  forgot : ContentId → StateModification
  add : Content → FilePath → DiskTimestamp → StateModification
  update : ContentId → FileName → RevisionId → Option ContentId → DiskTimestamp → StateModification

-- What a method that changes the state leaves, whether it fails or not.
abbrev pub Changed {ℓ} : Type ℓ → Type 0 → Type ℓ
Changed E S = Outcome E (Unit {0}) × S

-- `?` after a call that changes the state; `none` stands for a call that gives no answer.
abbrev pub and_then {ℓ} :
    {E : Type ℓ} {S : Type 0}
    → Option (Changed E S)
    → (S → Option (Changed E S))
    → Option (Changed E S)
and_then none f = none
and_then (some (ok _, s)) f = f s
and_then (some (err e, s)) f = some (err e, s)

pub and_then-eq-ok :
    {E S : Type 0} (m : Option (Changed E S)) (f : S → Option (Changed E S)) (s' : S)
    → and_then m f ≡ some (ok tt, s')
    → (t : S) × (m ≡ some (ok tt, t)) × (f t ≡ some (ok tt, s'))
and_then-eq-ok none f s' h = cc
and_then-eq-ok (some (ok _, t)) f s' h = (t, refl, h)
and_then-eq-ok (some (err e, t)) f s' h = ground arith

-- `?` on a value that is read.
abbrev pub on_ok {ℓ κ} :
    {E : Type ℓ} {A : Type κ} {S : Type 0}
    → Outcome E A
    → S
    → (A → Option (Changed E S))
    → Option (Changed E S)
on_ok (ok a) s f = f a
on_ok (err e) s f = some (err e, s)

pub on_ok-eq-ok :
    {E A S : Type 0} (r : Outcome E A) (s : S) (f : A → Option (Changed E S)) (s' : S)
    → on_ok r s f ≡ some (ok tt, s')
    → (a : A) × (r ≡ ok a) × (f a ≡ some (ok tt, s'))
on_ok-eq-ok (ok a) s f s' h = (a, refl, h)
on_ok-eq-ok (err e) s f s' h = ground arith

pub and_then-ne-none :
    {E S : Type 0} (m : Option (Changed E S)) (f : S → Option (Changed E S))
    → m ≢ none
    → ((t : S) → m ≡ some (ok tt, t) → f t ≢ none)
    → and_then m f ≢ none
and_then-ne-none none f some_m g = some_m
and_then-ne-none (some (ok _, t)) f some_m g = g t refl
and_then-ne-none (some (err e, t)) f some_m g = λ h. cc

pub on_ok-ne-none :
    {E A S : Type 0} (r : Outcome E A) (s : S) (f : A → Option (Changed E S))
    → ((a : A) → r ≡ ok a → f a ≢ none)
    → on_ok r s f ≢ none
on_ok-ne-none (ok a) s f g = g a refl
on_ok-ne-none (err e) s f g = λ h. cc

module _ {S : Type 0} (forgot_child : S → ContentId → Option (Changed Anyhow S)) where
  -- The `for` loop over the children.
  unfoldable pub forgot_each : List ContentId → S → Option (Changed Anyhow S)
  forgot_each [] s = some (ok tt, s)
  forgot_each (child ∷ children) s = and_then (forgot_child s child) (λ s'. forgot_each children s')

module _ (T : State) where
  -- The call for the content itself, after its children.
  unfoldable pub forgot_self : T.Store → ContentId → Changed Anyhow T.Store
  forgot_self s id = elim (T.forgot s id) [ ok s' ↦ (ok tt, s') | err e ↦ (err failed, s) ]

  -- `none` only when the fuel is spent; a level of the tree takes one unit.
  unfoldable pub forgot_with_children : ℕ → T.Store → ContentId → Option (Changed Anyhow T.Store)
  unfolding forgot_each forgot_self
  forgot_with_children zero s id = none
  forgot_with_children (suc fuel) s id = on_ok (T.direct_children_ids s id) s λ children.
      and_then (forgot_each (forgot_with_children fuel) children s) (λ s'. some (forgot_self s' id))

  -- A single `Outcome` of a primitive method as a change.
  abbrev changed {ℓ} :
      {E : Type ℓ} → (E → StateError) → T.Store → Outcome E T.Store → Changed StateError T.Store
  changed f s (ok s') = (ok tt, s')
  changed f s (err e) = (err (f e), s)

  abbrev forgotten : Changed Anyhow T.Store → Changed StateError T.Store
  forgotten (ok _, s) = (ok tt, s)
  forgotten (err e, s) = (err unexpected_error, s)

  -- `change`
  unfoldable pub change : ℕ → T.Store → StateModification → Option (Changed StateError T.Store)
  unfolding forgot_with_children
  change fuel s (StateModification.forgot id) = elim (forgot_with_children fuel s id) [
    | none ↦ none
    | some r ↦ some (forgotten r)
  ]
  change fuel s (StateModification.add content relative_path timestamp) =
      some (changed (λ e. e) s (T.add s content relative_path timestamp))
  change fuel s (StateModification.update id file_name revision_id parent_id timestamp) =
      some (
        changed (λ e. unexpected_error) s (T.update s id file_name revision_id parent_id timestamp))
