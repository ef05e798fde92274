-- ===== src/Operation/Operator/RemovedFolder.antt =====
-- trsync/src/operation/operator.rs with trsync/src/local: a folder that is removed on the server, and what is in it.
use trsync.Base.{
  ℕ, Bool, true, false, none, some, List, [], ◌∷◌, ◌++◌, ok, err, contains, length, length-append,
  ◌≡◌, ◌≢◌, sym, ap, arith, list_eq, string_eq,
}
use trsync.Core.Types.{ContentId, FileName, FilePath}
use trsync.Core.Content.{Content}
use trsync.Core.Error.{executor_error}
use trsync.Core.Error
use trsync.Event.{DiskEvent, RemoteEvent, Event, event_eq, from_disk_event}
use trsync.State.{State}
use trsync.State.Path.{to_path_buf}
use trsync.Sync.Local.{ignore_file}
use trsync.Local.Watcher.{remove, digest_event}
use trsync.Operation.Host.{Host}
use trsync.Operation.Disk.{local_event}
use trsync.Operation.Operator.{operate, attachment_in_state}
use trsync.Operation.Operator.Echo.{Works, removal-announced, removal_event}
use trsync.Operation.Operator.MovedFolder.{contains-other, operate-unknown_path}

stored : Event → FilePath
stored (Event.local w) = w.stored_path
stored (Event.remote e) = []

deeper : (path : FilePath) (name : FileName) (rest : FilePath) → path ++ (name ∷ rest) ≢ path
deeper path name rest e = omega (arith, length-append path (name ∷ rest), ap length e)

module _ (H : Host) (T : State) (workspace_folder : FilePath) where
  -- Where a folder that is on the disk has been removed with all that is in it, since it is gone from the server,
  -- the event of the watcher for a path in the folder is none that the operator has announced: as the state
  -- knows the path no longer, it ends in an error.
  pub removal-child_error :
      (fuel : ℕ) (id : ContentId) (content : Content) (parts : List Content)
      (o o1 : Works H T workspace_folder) (name : FileName) (rest : FilePath)
      (is_dir : FilePath → Bool)
      → contains o.context.ignore_events (Event.remote (RemoteEvent.deleted id)) ≡ false
      → attachment_in_state H T workspace_folder o.state id ≡ ok false
      → T.get o.state id ≡ ok (some content)
      → T.path o.state id ≡ ok parts
      → H.exists o.context.world (workspace_folder ++ to_path_buf parts) ≡ true
      → operate H T workspace_folder fuel (Event.remote (RemoteEvent.deleted id)) o
        ≡ some (ok tt, o1)
      → T.content_id_for_path o1.state (to_path_buf parts ++ (name ∷ rest)) ≡ ok none
      → contains o.context.ignore_events
          (Event.local (from_disk_event (DiskEvent.deleted (to_path_buf parts ++ (name ∷ rest)))))
        ≡ false
      → ignore_file (to_path_buf parts ++ (name ∷ rest)) ≡ false
      → (reported : DiskEvent) × (digest_event is_dir
            (remove (workspace_folder ++ (to_path_buf parts ++ (name ∷ rest))))
            workspace_folder
          ≡ ok (reported ∷ []))
        × (operate H T workspace_folder fuel (Event.local (from_disk_event reported)) o1
            ≡ some (err (executor_error Error.ExecutorError.unexpected), o1))
  unfolding from_disk_event stored
  removal-child_error fuel id content parts o o1 name rest is_dir fresh own known at there run
        forgotten quiet seen =
      let path = to_path_buf parts in
      let child = path ++ (name ∷ rest) in
      let e = local_event child (DiskEvent.deleted child) in
      let f = local_event path (DiskEvent.deleted path) in
      let other : f ≢ e = λ h. deeper path name rest (sym (ap stored h)) in
      let unannounced : contains o1.context.ignore_events e ≡ false =
        rw
          (removal-announced H T workspace_folder fuel id content parts o o1 fresh own known at
            there run)
          (contains-other o.context.ignore_events e f quiet other) in
      (
        DiskEvent.deleted child,
        removal_event is_dir workspace_folder child seen,
        operate-unknown_path H T workspace_folder fuel child o1 unannounced forgotten,
      )
