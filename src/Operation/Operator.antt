-- ===== src/Operation/Operator.antt =====
-- trsync/src/operation/operator.rs: `Operator` qualifies an event, runs its executors with retries
-- and applies their state changes.
pub mod Retry
pub mod Ignored
pub mod Kept
pub mod Failure
pub mod Echo
pub mod Swallowed
pub mod MovedFolder
pub mod RemovedFolder
use trsync.Base.{
  ℕ, zero, suc, ◌+◌, Bool, true, false, not, Option, none, some, List, [], ◌∷◌, ◌++◌, map, Outcome,
  ok, err, ◌==◌, list_eq, string_eq, contains, without, if◌then◌else◌,
}
use trsync.Core.Types.{ContentId, FilePath, ContentType, folder, content_type_eq}
use trsync.Core.Content.{Anyhow, Content, RemoteContent}
use trsync.Core.Error.{
  TracimClientError, timeout_error, StateError, ExecutorError, tracim, maximum_retry_count,
  OperatorError, executor_error, state_error, client_error,
}
use trsync.Core.Error
use trsync.Event.{DiskEvent, DiskEventWrap, RemoteEvent, Event, event_eq}
use trsync.State.{State, StateModification, Changed, change}
use trsync.Operation.Host.{Host}
use trsync.Operation.Exec.{Context, Exec}
use trsync.Operation.Disk
use trsync.Operation.Remote.Absent
use trsync.Operation.Remote.Created
use trsync.Operation.Remote.Modified
use trsync.Operation.Remote.Named

-- `Box<dyn Executor>`
pub data Executor : Type 0 where
  absent_from_disk present_on_disk : ContentId → Executor
  updated_on_disk : ContentId → Bool → Executor
  absent_from_remote created_on_remote modified_on_remote : FilePath → Executor
  named_on_remote : FilePath → FilePath → Executor

abbrev pub retry_count_max : ℕ
retry_count_max = 5

-- `executors`, for a local event
unfoldable pub local_executors : FilePath → DiskEvent → List Executor
local_executors db_path (DiskEvent.deleted _) = Executor.absent_from_remote db_path ∷ []
local_executors db_path (DiskEvent.created disk_path) = Executor.created_on_remote disk_path ∷ []
local_executors db_path (DiskEvent.modified disk_path) =
    Executor.modified_on_remote db_path
    ∷ (if db_path == disk_path then [] else Executor.named_on_remote db_path disk_path ∷ [])
local_executors db_path (DiskEvent.renamed _ after_disk_path) =
    Executor.named_on_remote db_path after_disk_path ∷ []

unfoldable pub executors : Event → List Executor
unfolding local_executors
executors (Event.remote (RemoteEvent.deleted id)) = Executor.absent_from_disk id ∷ []
executors (Event.remote (RemoteEvent.created id)) = Executor.present_on_disk id ∷ []
executors (Event.remote (RemoteEvent.updated id)) = Executor.updated_on_disk id true ∷ []
executors (Event.remote (RemoteEvent.renamed id)) = Executor.updated_on_disk id false ∷ []
executors (Event.local e) = local_executors e.stored_path e.event

-- An executor that answers with a time-out is tried again.
abbrev pub Ran : Host → Type 0
Ran H = Outcome OperatorError (List StateModification) × Context H

module _ {H : Host} (execute : Executor → Exec H (List StateModification)) where
  -- The `loop` of one executor, with the tries that are left: the count is that of all the event's
  -- executors. It gives what is left of it, too. With none left the source also asks the server for the text of
  -- the error (`event.display`), which is left out.
  unfoldable pub try_executor :
      Executor → ℕ → Context H → (Outcome OperatorError (List StateModification) × ℕ) × Context H
  try_executor e zero c = ((err (executor_error maximum_retry_count), 0), c)
  try_executor e (suc tries) c =
      let (r, c') = execute e c in
      elim r [
        | ok changes ↦ ((ok changes, suc tries), c')
        | err (tracim timeout_error) ↦ try_executor e tries c'
        | err error ↦ ((err (executor_error error), suc tries), c')
      ]

  -- The `for` loop over the executors.
  unfoldable pub run_executors : List Executor → ℕ → List StateModification → Context H → Ran H
  unfolding try_executor
  run_executors [] tries changes c = (ok changes, c)
  run_executors (e ∷ rest) tries changes c =
      let ((r, tries'), c') = try_executor e tries c in
      elim r [
        | ok more ↦ run_executors rest tries' (changes ++ more) c'
        | err error ↦ (err error, c')
      ]

  -- `retry_count` starts at 0, and an executor is not called once it is `RETRY_COUNT_MAX`.
  abbrev pub run_event : List Executor → Context H → Ran H
  run_event es c = run_executors es retry_count_max [] c

module _ (H : Host) (T : State) (workspace_folder : FilePath) where
  -- `execute` of each executor
  unfoldable pub execute : T.Store → Executor → Exec H (List StateModification)
  unfolding Disk.absent_from_disk Disk.present_on_disk Disk.updated_on_disk
      Absent.absent_from_remote Created.created_on_remote Modified.modified_on_remote
      Named.named_on_remote
  execute s (Executor.absent_from_disk id) = Disk.absent_from_disk H T workspace_folder s id
  execute s (Executor.present_on_disk id) = Disk.present_on_disk H T workspace_folder s id
  execute s (Executor.updated_on_disk id download) =
      Disk.updated_on_disk H T workspace_folder s id download
  execute s (Executor.absent_from_remote p) = Absent.absent_from_remote H T s p
  execute s (Executor.created_on_remote p) = Created.created_on_remote H T workspace_folder s p
  execute s (Executor.modified_on_remote p) = Modified.modified_on_remote H T workspace_folder s p
  execute s (Executor.named_on_remote p q) = Named.named_on_remote H T workspace_folder s p q

  -- The operator, with what it works on.
  pub record Operator : Type 0 where
    pub state : T.Store
    pub context : Context H

  -- Is the parent of the content something else than a folder?
  unfoldable pub under_no_folder : T.Store → Option ContentId → Outcome Anyhow Bool
  under_no_folder s none = ok false
  under_no_folder s (some parent_id) = elim (T.get s parent_id) [
    | err e ↦ err e
    | ok none ↦ ok false
    | ok (some parent) ↦ ok (not (parent.type_ == folder))
  ]

  abbrev unexpected_in {ℓ} : {A : Type ℓ} → Outcome Anyhow A → Outcome OperatorError A
  unexpected_in (ok a) = ok a
  unexpected_in (err e) = err Error.OperatorError.unexpected

  -- The parent of a content that the state knows.
  unfoldable pub attachment_in_state : T.Store → ContentId → Outcome OperatorError Bool
  unfolding under_no_folder
  attachment_in_state s id = elim (T.get s id) [
    | err e ↦ err Error.OperatorError.unexpected
    | ok none ↦ ok false
    | ok (some content) ↦ unexpected_in (under_no_folder s content.parent_id)
  ]

  abbrev attachment_on_server :
      T.Store → Outcome TracimClientError RemoteContent → Outcome OperatorError Bool
  attachment_on_server s (ok remote) = unexpected_in (under_no_folder s remote.parent_id)
  attachment_on_server s (err e) = err (client_error e)

  -- `is_attachment`
  unfoldable pub is_attachment : Event → Operator → Outcome OperatorError Bool × Operator
  unfolding attachment_in_state
  is_attachment (Event.remote (RemoteEvent.created id)) o =
      let (r, w) = H.get_content id o.context.world in
      (attachment_on_server o.state r, record o { context = record o.context { world = w } })
  is_attachment (Event.remote (RemoteEvent.deleted id)) o = (attachment_in_state o.state id, o)
  is_attachment (Event.remote (RemoteEvent.updated id)) o = (attachment_in_state o.state id, o)
  is_attachment (Event.remote (RemoteEvent.renamed id)) o = (attachment_in_state o.state id, o)
  is_attachment (Event.local e) o = (ok false, o)

  -- `qualify`: an update of a content that is not known is its creation.
  unfoldable pub qualify : T.Store → Event → Outcome OperatorError Event
  qualify s (Event.remote (RemoteEvent.updated id)) = elim (T.known s id) [
    | err e ↦ err (executor_error Error.ExecutorError.unexpected)
    | ok true ↦ ok (Event.remote (RemoteEvent.updated id))
    | ok false ↦ ok (Event.remote (RemoteEvent.created id))
  ]
  qualify s e = ok e

  -- The last loop of `operate`; `none` where `change` gives no answer within the fuel.
  unfoldable pub apply_changes :
      ℕ → List StateModification → T.Store → Option (Changed StateError T.Store)
  unfolding change
  apply_changes fuel [] s = some (ok tt, s)
  apply_changes fuel (m ∷ ms) s = elim (change T fuel s m) [
    | none ↦ none
    | some (ok _, s') ↦ apply_changes fuel ms s'
    | some (err e, s') ↦ some (err e, s')
  ]

  abbrev pub Operated : Type 0
  Operated = Option (Outcome OperatorError (Unit {0}) × Operator)

  abbrev finished : Context H → Option (Changed StateError T.Store) → Operated
  finished c none = none
  finished c (some (ok _, s)) = some (ok tt, record { state = s; context = c })
  finished c (some (err e, s)) = some (err (state_error e), record { state = s; context = c })

  -- After the executors.
  unfoldable pub conclude : ℕ → T.Store → Ran H → Operated
  unfolding apply_changes
  conclude fuel s (err e, c) = some (err e, record { state = s; context = c })
  conclude fuel s (ok changes, c) = finished c (apply_changes fuel changes s)

  -- The part of `operate` that works: from `qualify` on.
  unfoldable pub proceed : ℕ → Event → Operator → Operated
  unfolding qualify executors execute run_executors conclude
  proceed fuel event o = elim (qualify o.state event) [
    | err e ↦ some (err e, o)
    | ok event' ↦ conclude fuel o.state (run_event (execute o.state) (executors event') o.context)
  ]

  abbrev unless_attachment : ℕ → Event → Outcome OperatorError Bool × Operator → Operated
  unless_attachment fuel event (err e, o) = some (err e, o)
  unless_attachment fuel event (ok true, o) = some (ok tt, o)
  unless_attachment fuel event (ok false, o) = proceed fuel event o

  -- `operate`; the fuel bounds the depth of a removed tree.
  unfoldable pub operate : ℕ → Event → Operator → Operated
  unfolding is_attachment proceed
  operate fuel event o =
      if contains o.context.ignore_events event
      then some (
        ok tt,
        record o {
          context = record o.context { ignore_events = without event o.context.ignore_events };
        },
      )
      else unless_attachment fuel event (is_attachment event o)
