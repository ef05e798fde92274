-- ===== src/Operation/Operator/MovedFolder.antt =====
-- trsync/src/operation/operator.rs with trsync/src/local: a folder that is renamed on the server.
use trsync.Base.{
  ℕ, Bool, true, false, none, some, List, [], ◌∷◌, ◌++◌, ok, err, contains, list_eq, string_eq, ◌≡◌,
  ◌≢◌, refl, ap, ◌∙◌, arith,
}
use trsync.Core.Types.{ContentId, FilePath, DiskTimestamp}
use trsync.Core.Content.{Content, RemoteContent, from_remote}
use trsync.Core.Error.{OperatorError, executor_error}
use trsync.Core.Error
use trsync.Event.{DiskEvent, RemoteEvent, Event, event_eq, from_disk_event}
use trsync.State.{State, StateModification}
use trsync.State.Path.{to_path_buf}
use trsync.Sync.Local.{ignore_file}
use trsync.Local.Watcher.{rename, digest_event}
use trsync.Local.Watcher.Renamed.{digest_event-folder}
use trsync.Local.Reducer.{next_event, reduce, react}
use trsync.Operation.Host.{Host}
use trsync.Operation.Exec.{Context, raise, ◌>>=◌, lift, expect}
use trsync.Operation.Disk.{local_event}
use trsync.Operation.Remote.Absent.{absent_from_remote}
use trsync.Operation.Operator.{
  Executor, execute, executors, local_executors, try_executor, run_executors, run_event, conclude,
  proceed, operate, qualify, is_attachment, attachment_in_state, apply_changes,
}
use trsync.Operation.Disk.Branches.{updated_on_disk-moved}
use trsync.Operation.Operator.Echo.{Works, run_event-one}

pub contains-other :
    (events : List Event) (e f : Event)
    → contains events e ≡ false
    → f ≢ e
    → contains (events ++ (f ∷ [])) e ≡ false
contains-other [] e f p n = ground arith
contains-other (x ∷ events) e f p n = ground (arith, contains-other events e f)

module _ (H : Host) (T : State) (workspace_folder : FilePath) where
  operate-updated :
      (fuel : ℕ) (id : ContentId) (o : Works H T workspace_folder)
      → contains o.context.ignore_events (Event.remote (RemoteEvent.updated id)) ≡ false
      → attachment_in_state H T workspace_folder o.state id ≡ ok false
      → T.known o.state id ≡ ok true
      → operate H T workspace_folder fuel (Event.remote (RemoteEvent.updated id)) o
        ≡ conclude H T workspace_folder fuel o.state (
            run_event
              (execute H T workspace_folder o.state)
              (Executor.updated_on_disk id true ∷ [])
              o.context)
  unfolding operate is_attachment proceed qualify executors
  operate-updated fuel id o fresh own known = rw (operate, fresh, own, proceed, qualify, known) refl

  absent_from_remote-unknown :
      (s : T.Store) (path : FilePath) (c : Context H)
      → T.content_id_for_path s path ≡ ok none
      → absent_from_remote H T s path c ≡ (err Error.ExecutorError.unexpected, c)
  unfolding absent_from_remote expect raise lift ◌>>=◌
  absent_from_remote-unknown s path c unknown = ground arith

  -- The deletion of a path that the state does not know fails.
  pub operate-unknown_path :
      (fuel : ℕ) (path : FilePath) (o : Works H T workspace_folder)
      → contains o.context.ignore_events (local_event path (DiskEvent.deleted path)) ≡ false
      → T.content_id_for_path o.state path ≡ ok none
      → operate H T workspace_folder fuel (local_event path (DiskEvent.deleted path)) o
        ≡ some (err (executor_error Error.ExecutorError.unexpected), o)
  unfolding operate is_attachment proceed qualify executors local_executors execute run_executors
      try_executor conclude
  operate-unknown_path fuel path o fresh unknown =
      ground (arith, fresh, absent_from_remote-unknown o.state path o.context unknown)

  pub remote_rename-error :
      (fuel : ℕ) (id : ContentId) (parts : List Content) (raw : RemoteContent) (content : Content)
      (o : Works H T workspace_folder) (w w' w'' : H.World) (time : DiskTimestamp) (s' : T.Store)
      (is_dir : FilePath → Bool)
      → contains o.context.ignore_events (Event.remote (RemoteEvent.updated id)) ≡ false
      → attachment_in_state H T workspace_folder o.state id ≡ ok false
      → T.known o.state id ≡ ok true
      → T.path o.state id ≡ ok parts
      → H.get_content id o.context.world ≡ (ok raw, w)
      → from_remote raw ≡ ok content
      → content.parent_id ≡ none
      → H.rename
          (workspace_folder ++ to_path_buf parts)
          (workspace_folder ++ (content.file_name ∷ []))
          w
        ≡ (ok tt, w')
      → workspace_folder ++ to_path_buf parts ≢ workspace_folder ++ (content.file_name ∷ [])
      → H.fill_file_with_content id content.type_ (workspace_folder ++ (content.file_name ∷ [])) w'
        ≡ (ok tt, w'')
      → H.last_modified_timestamp w'' (workspace_folder ++ (content.file_name ∷ [])) ≡ ok time
      → apply_changes H T workspace_folder fuel
          (StateModification.update id content.file_name content.revision_id content.parent_id time
            ∷ [])
          o.state
        ≡ some (ok tt, s')
      → T.content_id_for_path s' (to_path_buf parts) ≡ ok none
      → contains o.context.ignore_events
          (local_event (to_path_buf parts) (DiskEvent.deleted (to_path_buf parts)))
        ≡ false
      → is_dir (workspace_folder ++ to_path_buf parts) ≡ false
      → is_dir (workspace_folder ++ (content.file_name ∷ [])) ≡ true
      → ignore_file (to_path_buf parts) ≡ false
      → (o1 : Works H T workspace_folder) × (before after : DiskEvent) × (operate H T
            workspace_folder fuel
            (Event.remote (RemoteEvent.updated id))
            o
          ≡ some (ok tt, o1))
        × (digest_event is_dir
              (rename
                (workspace_folder ++ to_path_buf parts)
                (workspace_folder ++ (content.file_name ∷ [])))
              workspace_folder
            ≡ ok (before ∷ after ∷ []))
        × (next_event (before ∷ after ∷ []) ≡ (some (from_disk_event before), after ∷ []))
        × (operate H T workspace_folder fuel (Event.local (from_disk_event before)) o1
            ≡ some (err (executor_error Error.ExecutorError.unexpected), o1))
  unfolding next_event reduce react from_disk_event execute conclude
  remote_rename-error fuel id parts raw content o w w' w'' time s' is_dir fresh own known at found
        parsed root moved apart filled stamped applied unknown quiet gone there seen =
      let old = to_path_buf parts in
      let new = content.file_name ∷ [] in
      let renaming = local_event old (DiskEvent.renamed old new) in
      let download = local_event old (DiskEvent.modified old) in
      let deletion = local_event old (DiskEvent.deleted old) in
      let c' : Context H = record {
        world = w'';
        ignore_events = (o.context.ignore_events ++ (renaming ∷ [])) ++ (download ∷ []);
      } in
      let o1 : Works H T workspace_folder = record { state = s'; context = c' } in
      let changes =
        StateModification.update id content.file_name content.revision_id content.parent_id time
        ∷ [] in
      let done =
        updated_on_disk-moved H T workspace_folder o.state id parts raw content o.context w w' w''
          time at found parsed root moved apart filled stamped in
      let ran =
        run_event-one (execute H T workspace_folder o.state) (Executor.updated_on_disk id true)
          changes o.context (ap (λ x. x.0) done)
        ∙ ap (λ x. (ok changes, x.1)) done in
      let run : operate H T workspace_folder fuel (Event.remote (RemoteEvent.updated id)) o
          ≡ some (ok tt, o1) =
        operate-updated fuel id o fresh own known
        ∙ ap (conclude H T workspace_folder fuel o.state) ran
        ∙ ground (arith, applied) in
      (
        o1,
        DiskEvent.deleted old,
        DiskEvent.created new,
        run,
        digest_event-folder is_dir workspace_folder old new gone there seen,
        ground arith,
        operate-unknown_path fuel old o1
            (contains-other (o.context.ignore_events ++ (renaming ∷ [])) deletion download
              (contains-other o.context.ignore_events deletion renaming quiet (λ h. ground arith))
              (λ h. ground arith))
            unknown,
      )
