-- ===== src/Operation/Operator/Failure.antt =====
-- trsync/src/operation/operator.rs: what a failure leaves, and the qualification of events.
use trsync.Base.{
  ℕ, true, false, some, ok, err, Outcome-cases, contains, Bool-cases, Option-cases, ◌≡◌, refl, ◌∙◌,
  inl, inr, arith,
}
use trsync.Core.Types.{ContentId, FilePath}
use trsync.Core.Error.{ExecutorError, executor_error}
use trsync.Event.{RemoteEvent, Event, event_eq}
use trsync.State.{State}
use trsync.Operation.Host.{Host}
use trsync.Operation.Operator.{
  Operator, Ran, operate, proceed, conclude, qualify, is_attachment, apply_changes, executors,
  execute, run_event,
}

module _ (H : Host) (T : State) (workspace_folder : FilePath) where
  -- `is_attachment` only reads the state.
  is_attachment-state :
      (event : Event) (o : Operator H T workspace_folder)
      → (is_attachment H T workspace_folder event o).1.state ≡ o.state
  unfolding is_attachment
  is_attachment-state (Event.remote (RemoteEvent.created id)) o = refl
  is_attachment-state (Event.remote (RemoteEvent.deleted id)) o = refl
  is_attachment-state (Event.remote (RemoteEvent.updated id)) o = refl
  is_attachment-state (Event.remote (RemoteEvent.renamed id)) o = refl
  is_attachment-state (Event.local e) o = refl

  conclude-state :
      (fuel : ℕ) (s : T.Store) (ran : Ran H) (e : ExecutorError)
      (o' : Operator H T workspace_folder)
      → conclude H T workspace_folder fuel s ran ≡ some (err (executor_error e), o')
      → o'.state ≡ s
  unfolding conclude
  conclude-state fuel s (err f, c) e o' p = ground arith
  conclude-state fuel s (ok changes, c) e o' p =
      elim (Option-cases (apply_changes H T workspace_folder fuel changes s)) [
        | inl q ↦ absurd (ground arith)
        | inr ((ok _, s'), q) ↦ absurd (ground arith)
        | inr ((err f, s'), q) ↦ absurd (ground arith)
      ]

  proceed-state :
      (fuel : ℕ) (event : Event) (o : Operator H T workspace_folder) (e : ExecutorError)
      (o' : Operator H T workspace_folder)
      → proceed H T workspace_folder fuel event o ≡ some (err (executor_error e), o')
      → o'.state ≡ o.state
  unfolding proceed
  proceed-state fuel event o e o' p =
      elim (Outcome-cases (qualify H T workspace_folder o.state event)) [
        | inr (event', q) ↦
            conclude-state fuel o.state
              (run_event (execute H T workspace_folder o.state) (executors event') o.context) e o'
              (ground arith)
        | inl (f, q) ↦ ground arith
      ]

  -- An event that fails with an executor's error has changed nothing of the state, whatever its
  -- earlier executors asked for: the state changes are applied after the last executor.
  pub operate-failure :
      (fuel : ℕ) (event : Event) (o : Operator H T workspace_folder) (e : ExecutorError)
      (o' : Operator H T workspace_folder)
      → operate H T workspace_folder fuel event o ≡ some (err (executor_error e), o')
      → o'.state ≡ o.state
  unfolding operate
  operate-failure fuel event o e o' p = elim (Bool-cases (contains o.context.ignore_events event)) [
    | inl q ↦ absurd (ground arith)
    | inr q ↦ elim (Outcome-cases (is_attachment H T workspace_folder event o).0) [
      | inr (true, r) ↦ absurd (ground arith)
      | inr (false, r) ↦
          proceed-state fuel event (is_attachment H T workspace_folder event o).1 e o'
            (ground arith)
          ∙ is_attachment-state event o
      | inl (f, r) ↦ ground (arith, is_attachment-state event o)
    ]
  ]

  -- An update of a content that the state does not know is operated as its creation.
  pub proceed-unknown :
      (fuel : ℕ) (id : ContentId) (o : Operator H T workspace_folder)
      → T.known o.state id ≡ ok false
      → proceed H T workspace_folder fuel (Event.remote (RemoteEvent.updated id)) o
        ≡ proceed H T workspace_folder fuel (Event.remote (RemoteEvent.created id)) o
  unfolding proceed qualify
  proceed-unknown fuel id o p = ground arith
