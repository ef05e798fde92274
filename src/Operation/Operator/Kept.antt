-- ===== src/Operation/Operator/Kept.antt =====
-- trsync/src/operation/operator.rs: an event that is to be ignored stays so until it comes.
use trsync.Base.{
  ℕ, zero, suc, ◌++◌, true, false, List, [], ◌∷◌, some, Outcome, ok, err, Outcome-cases,
  Option-cases, Bool-cases, contains, contains-without_other, ◌≡◌, ◌≢◌, refl, inl, inr, arith,
}
use trsync.Core.Types.{FilePath}
use trsync.Core.Error.{OperatorError}
use trsync.Event.{RemoteEvent, Event, event_eq}
use trsync.State.{State, StateModification}
use trsync.Operation.Host.{Host}
use trsync.Operation.Exec.{Context, Exec}
use trsync.Operation.Exec.Keeps.{Keeps, Kept}
use trsync.Operation.Disk.Kept.{
  absent_from_disk-Keeps, present_on_disk-Keeps, updated_on_disk-Keeps,
}
use trsync.Operation.Remote.Kept.{
  absent_from_remote-Keeps, created_on_remote-Keeps, modified_on_remote-Keeps,
  named_on_remote-Keeps,
}
use trsync.Operation.Operator.{
  Operator, Executor, Ran, execute, executors, try_executor, run_executors, run_event, conclude,
  proceed, operate, qualify, is_attachment, apply_changes, retry_count_max,
}

module _ (H : Host) (T : State) (workspace_folder : FilePath) (e : Event) where
  pub execute-Keeps :
      (s : T.Store) (x : Executor) → Keeps (Kept e) (execute H T workspace_folder s x)
  unfolding execute
  execute-Keeps s (Executor.absent_from_disk id) =
      absent_from_disk-Keeps H T workspace_folder s e id
  execute-Keeps s (Executor.present_on_disk id) = present_on_disk-Keeps H T workspace_folder s e id
  execute-Keeps s (Executor.updated_on_disk id b) =
      updated_on_disk-Keeps H T workspace_folder s e id b
  execute-Keeps s (Executor.absent_from_remote p) = absent_from_remote-Keeps H T s e p
  execute-Keeps s (Executor.created_on_remote p) =
      created_on_remote-Keeps H T workspace_folder s e p
  execute-Keeps s (Executor.modified_on_remote p) =
      modified_on_remote-Keeps H T workspace_folder s e p
  execute-Keeps s (Executor.named_on_remote p q) =
      named_on_remote-Keeps H T workspace_folder s e p q

module _ {H : Host} (P : List Event → Type 0) (execute : Executor → Exec H (List StateModification))
    (keeps : (x : Executor) → Keeps P (execute x)) where
  try_executor-keeps :
      (x : Executor) (tries : ℕ) (c : Context H)
      → P c.ignore_events
      → P (try_executor execute x tries c).1.ignore_events
  unfolding try_executor
  try_executor-keeps x zero c p = p
  try_executor-keeps x (suc tries) c p =
      ground
        (arith, (keeps x).at c p, try_executor-keeps x tries (execute x c).1 ((keeps x).at c p))

  pub run_executors-keeps :
      (xs : List Executor) (tries : ℕ) (changes : List StateModification) (c : Context H)
      → P c.ignore_events
      → P (run_executors execute xs tries changes c).1.ignore_events
  unfolding run_executors
  run_executors-keeps [] tries changes c p = p
  run_executors-keeps (x ∷ xs) tries changes c p =
      elim (Outcome-cases (try_executor execute x tries c).0.0) [
        | inl (f, q) ↦ ground (arith, try_executor-keeps x tries c p)
        | inr (more, q) ↦ ground (
          arith,
          run_executors-keeps xs (try_executor execute x tries c).0.1 (changes ++ more)
              (try_executor execute x tries c).1 (try_executor-keeps x tries c p),
        )
      ]

module _ (H : Host) (T : State) (workspace_folder : FilePath) where
  is_attachment-ignore_events :
      (event : Event) (o : Operator H T workspace_folder)
      → (is_attachment H T workspace_folder event o).1.context.ignore_events
        ≡ o.context.ignore_events
  unfolding is_attachment
  is_attachment-ignore_events (Event.remote (RemoteEvent.created id)) o = refl
  is_attachment-ignore_events (Event.remote (RemoteEvent.deleted id)) o = refl
  is_attachment-ignore_events (Event.remote (RemoteEvent.updated id)) o = refl
  is_attachment-ignore_events (Event.remote (RemoteEvent.renamed id)) o = refl
  is_attachment-ignore_events (Event.local e) o = refl

  pub conclude-ignore_events :
      (fuel : ℕ) (s : T.Store) (ran : Ran H) (r : Outcome OperatorError (Unit {0}))
      (o' : Operator H T workspace_folder)
      → conclude H T workspace_folder fuel s ran ≡ some (r, o')
      → o'.context.ignore_events ≡ ran.1.ignore_events
  unfolding conclude
  conclude-ignore_events fuel s (err f, c) r o' p = ground arith
  conclude-ignore_events fuel s (ok changes, c) r o' p =
      elim (Option-cases (apply_changes H T workspace_folder fuel changes s)) [
        | inl q ↦ absurd (ground arith)
        | inr ((ok _, s'), q) ↦ ground arith
        | inr ((err f, s'), q) ↦ ground arith
      ]

  proceed-Kept :
      (fuel : ℕ) (event : Event) (o : Operator H T workspace_folder) (e : Event)
      (r : Outcome OperatorError (Unit {0})) (o' : Operator H T workspace_folder)
      → proceed H T workspace_folder fuel event o ≡ some (r, o')
      → contains o.context.ignore_events e ≡ true
      → contains o'.context.ignore_events e ≡ true
  unfolding proceed Kept
  proceed-Kept fuel event o e r o' p k =
      elim (Outcome-cases (qualify H T workspace_folder o.state event)) [
        | inl (f, q) ↦ ground arith
        | inr (event', q) ↦
            let ran =
              run_event (execute H T workspace_folder o.state) (executors event') o.context in
            ground (
              arith,
              conclude-ignore_events fuel o.state ran r o' (ground arith),
              run_executors-keeps (Kept e) (execute H T workspace_folder o.state)
                  (execute-Keeps H T workspace_folder e o.state) (executors event') retry_count_max
                  [] o.context k,
            )
      ]

  -- An event that is to be ignored stays so while other events are operated, whether they succeed
  -- or fail: no executor forgets what an earlier one announced.
  pub operate-Kept :
      (fuel : ℕ) (event : Event) (o : Operator H T workspace_folder) (e : Event)
      (r : Outcome OperatorError (Unit {0})) (o' : Operator H T workspace_folder)
      → event ≢ e
      → operate H T workspace_folder fuel event o ≡ some (r, o')
      → contains o.context.ignore_events e ≡ true
      → contains o'.context.ignore_events e ≡ true
  unfolding operate
  operate-Kept fuel event o e r o' n p k =
      elim (Bool-cases (contains o.context.ignore_events event)) [
        | inl q ↦ ground (arith, contains-without_other event e o.context.ignore_events n)
        | inr q ↦ elim (Outcome-cases (is_attachment H T workspace_folder event o).0) [
          | inl (f, a) ↦ ground (arith, is_attachment-ignore_events event o)
          | inr (true, a) ↦ ground (arith, is_attachment-ignore_events event o)
          | inr (false, a) ↦
              proceed-Kept fuel event (is_attachment H T workspace_folder event o).1 e r o'
                (ground arith) (ground (arith, is_attachment-ignore_events event o))
        ]
      ]
