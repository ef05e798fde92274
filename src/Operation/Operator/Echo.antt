-- ===== src/Operation/Operator/Echo.antt =====
-- trsync/src/operation/operator.rs with trsync/src/local: what the operator does to the folder comes back as an
-- event of the folder's watcher.
use trsync.Base.{
  ℕ, true, false, some, List, [], ◌∷◌, ◌++◌, Outcome, ok, contains, Bool, ◌≡◌, ◌≢◌, refl, sym, ap,
  ◌∙◌, arith,
}
use trsync.Core.Types.{ContentId, FilePath}
use trsync.Core.Content.{Content}
use trsync.Core.Error.{OperatorError}
use trsync.Event.{DiskEvent, RemoteEvent, Event, DiskEventWrap, wrap, event_eq, from_disk_event}
use trsync.State.{State, StateModification}
use trsync.State.Path.{to_path_buf}
use trsync.Sync.Local.{ignore_file}
use trsync.Local.Watcher.{remove, digest_event, event_path, messages_of}
use trsync.Local.Watcher.Renamed.{relative-append}
use trsync.Local.Reducer.{next_event, reduce}
use trsync.Operation.Host.{Host}
use trsync.Operation.Exec.{Context, Exec}
use trsync.Operation.Disk.{local_event, absent_from_disk}
use trsync.Operation.Disk.Branches.{absent_from_disk-known}
use trsync.Operation.Disk.Announced.{contains-last}
use trsync.Operation.Operator.{
  Operator, Executor, execute, executors, try_executor, run_executors, run_event, conclude, proceed,
  operate, qualify, is_attachment, attachment_in_state,
}
use trsync.Operation.Operator.Kept.{operate-Kept, conclude-ignore_events}
use trsync.Operation.Operator.Ignored.{operate-ignored}

-- The removal of a path below the folder, as it comes through the watcher and the reducer.
pub removal_event :
    (is_dir : FilePath → Bool) (workspace path : FilePath)
    → ignore_file path ≡ false
    → digest_event is_dir (remove (workspace ++ path)) workspace ≡ ok (DiskEvent.deleted path ∷ [])
unfolding digest_event event_path messages_of
removal_event is_dir workspace path seen =
    rw (digest_event, relative-append workspace path, seen) refl

module _ {H : Host} (execute : Executor → Exec H (List StateModification)) where
  pub run_event-one :
      (x : Executor) (changes : List StateModification) (c : Context H)
      → (execute x c).0 ≡ ok changes
      → run_event execute (x ∷ []) c ≡ (ok changes, (execute x c).1)
  unfolding run_executors try_executor
  run_event-one x changes c p = ground arith

module _ (H : Host) (T : State) (workspace_folder : FilePath) where
  abbrev pub Works : Type 0
  Works = Operator H T workspace_folder

  -- The operator works off any other events, whether they succeed or fail.
  pub data Meanwhile (fuel : ℕ) (e : Event) (o : Works) : Works → Type 0 where
    none_yet : Meanwhile fuel e o o
    one_more :
        {o1 o2 : Works} (event : Event) (r : Outcome OperatorError (Unit {0}))
        → Meanwhile fuel e o o1
        → event ≢ e
        → operate H T workspace_folder fuel event o1 ≡ some (r, o2)
        → Meanwhile fuel e o o2

  pub Meanwhile-Kept :
      (fuel : ℕ) (e : Event) (o o' : Works)
      → Meanwhile fuel e o o'
      → contains o.context.ignore_events e ≡ true
      → contains o'.context.ignore_events e ≡ true
  Meanwhile-Kept fuel e o o' none_yet k = k
  Meanwhile-Kept fuel e o o' (one_more {o1} event r m n p) k =
      operate-Kept H T workspace_folder fuel event o1 e r o' n p (Meanwhile-Kept fuel e o o1 m k)

  operate-removal :
      (fuel : ℕ) (id : ContentId) (o : Works)
      → contains o.context.ignore_events (Event.remote (RemoteEvent.deleted id)) ≡ false
      → attachment_in_state H T workspace_folder o.state id ≡ ok false
      → operate H T workspace_folder fuel (Event.remote (RemoteEvent.deleted id)) o
        ≡ conclude H T workspace_folder fuel o.state (
            run_event
              (execute H T workspace_folder o.state)
              (Executor.absent_from_disk id ∷ [])
              o.context)
  unfolding operate is_attachment proceed qualify executors
  operate-removal fuel id o fresh own = rw (operate, fresh, own) refl

  -- A removal that succeeds has announced the deletion of the path, where that was there, and nothing else.
  pub removal-announced :
      (fuel : ℕ) (id : ContentId) (content : Content) (parts : List Content) (o o1 : Works)
      → contains o.context.ignore_events (Event.remote (RemoteEvent.deleted id)) ≡ false
      → attachment_in_state H T workspace_folder o.state id ≡ ok false
      → T.get o.state id ≡ ok (some content)
      → T.path o.state id ≡ ok parts
      → H.exists o.context.world (workspace_folder ++ to_path_buf parts) ≡ true
      → operate H T workspace_folder fuel (Event.remote (RemoteEvent.deleted id)) o
        ≡ some (ok tt, o1)
      → o1.context.ignore_events
        ≡ o.context.ignore_events
          ++ (local_event (to_path_buf parts) (DiskEvent.deleted (to_path_buf parts)) ∷ [])
  unfolding execute
  removal-announced fuel id content parts o o1 fresh own known at there run =
      let (answer, events) =
        absent_from_disk-known H T workspace_folder o.state id content parts o.context known at in
      let c' = (absent_from_disk H T workspace_folder o.state id o.context).1 in
      let ran =
        run_event (execute H T workspace_folder o.state) (Executor.absent_from_disk id ∷ [])
          o.context in
      let same : ran.1 ≡ c' =
        ap (λ x. x.1)
          (run_event-one (execute H T workspace_folder o.state) (Executor.absent_from_disk id)
            (StateModification.forgot id ∷ []) o.context answer) in
      let kept : o1.context.ignore_events ≡ ran.1.ignore_events =
        conclude-ignore_events H T workspace_folder fuel o.state ran (ok tt) o1
          (sym (operate-removal fuel id o fresh own) ∙ run) in
      ground (arith, kept, ap (λ c. c.ignore_events) same, events, there)

  -- Where the removal of a known content that is on the disk and no attachment has succeeded, the event of the
  -- watcher for the path of the content passes the reducer and is dropped without any change, whatever other
  -- events have been worked off in between and however they ended. It says nothing of the events for what is in
  -- a removed folder.
  pub removal-no_echo :
      (fuel : ℕ) (id : ContentId) (content : Content) (parts : List Content) (o o1 o2 : Works)
      (is_dir : FilePath → Bool)
      → contains o.context.ignore_events (Event.remote (RemoteEvent.deleted id)) ≡ false
      → attachment_in_state H T workspace_folder o.state id ≡ ok false
      → T.get o.state id ≡ ok (some content)
      → T.path o.state id ≡ ok parts
      → H.exists o.context.world (workspace_folder ++ to_path_buf parts) ≡ true
      → ignore_file (to_path_buf parts) ≡ false
      → operate H T workspace_folder fuel (Event.remote (RemoteEvent.deleted id)) o
        ≡ some (ok tt, o1)
      → Meanwhile fuel (Event.local (from_disk_event (DiskEvent.deleted (to_path_buf parts)))) o1 o2
      → (reported : DiskEvent) × (w : DiskEventWrap) × (o3 : Works) × (digest_event is_dir
            (remove (workspace_folder ++ to_path_buf parts))
            workspace_folder
          ≡ ok (reported ∷ []))
        × (next_event (reported ∷ []) ≡ (some w, []))
        × (operate H T workspace_folder fuel (Event.local w) o2 ≡ some (ok tt, o3))
        × (o3.state ≡ o2.state)
        × (o3.context.world ≡ o2.context.world)
  unfolding next_event reduce from_disk_event
  removal-no_echo fuel id content parts o o1 o2 is_dir fresh own known at there seen run meanwhile =
      let path = to_path_buf parts in
      let e = local_event path (DiskEvent.deleted path) in
      let announced : contains o1.context.ignore_events e ≡ true =
        rw (removal-announced fuel id content parts o o1 fresh own known at there run)
          (contains-last o.context.ignore_events e) in
      let (o3, done, state, world, _, _) =
        operate-ignored H T workspace_folder fuel e o2 (Event.remote (RemoteEvent.deleted id))
          (Meanwhile-Kept fuel e o1 o2 meanwhile announced) (λ h. cc) in
      (
        DiskEvent.deleted path,
        wrap path (DiskEvent.deleted path),
        o3,
        removal_event is_dir workspace_folder path seen,
        refl,
        done,
        state,
        world,
      )
