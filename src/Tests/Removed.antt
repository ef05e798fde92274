-- ===== src/Tests/Removed.antt =====
-- A folder that is removed on the server.
use trsync.Base.{◌≡◌, refl, false, none, some, [], ◌∷◌, ◌++◌, ok, err, nat_eq, option_eq, ends_with}
use trsync.Core.Types.{FilePath, folder}
use trsync.Core.Error.{executor_error, unexpected}
use trsync.Event.{DiskEvent, RemoteEvent, Event, wrap, event_eq, from_disk_event}
use trsync.Sync.Local.{ignore_file}
use trsync.State.Path.{to_path_buf}
use trsync.State.Memory.{memory_state, get, path, content_id_for_path, direct_children_ids, forgot}
use trsync.Local.Watcher.{remove, digest_event}
use trsync.Operation.Exec.{◌>>=◌, ◌>>◌, lift, expect, look, when, push, attempt}
use trsync.Operation.Operator.{Operator, operate, attachment_in_state}
use trsync.Operation.Operator.RemovedFolder.{removal-child_error}
use trsync.Tests.Data.{workspace, content_of, state_of_tree, host, start}

abbrev the_path : FilePath
the_path = "Folder" ∷ []

abbrev child : FilePath
child = "Folder" ∷ "a.txt" ∷ []

abbrev before : Operator host memory_state workspace
before = record { state = state_of_tree; context = start }

abbrev removed : Operator host memory_state workspace
removed = record {
  state = record { contents = []; timestamps = [] };
  context = record {
    world = 1;
    ignore_events = Event.local (wrap the_path (DiskEvent.deleted the_path)) ∷ [];
  };
}

at_root : attachment_in_state host memory_state workspace state_of_tree 1 ≡ ok false
unfolding attachment_in_state get nat_eq
at_root = refl

known : get state_of_tree 1 ≡ ok (some (content_of 1 "Folder" none folder))
unfolding get nat_eq
known = refl

parts : path state_of_tree 1 ≡ ok (content_of 1 "Folder" none folder ∷ [])
unfolding path nat_eq
parts = refl

removes :
    operate host memory_state workspace 3 (Event.remote (RemoteEvent.deleted 1)) before
    ≡ some (ok tt, removed)
unfolding operate get nat_eq ◌>>=◌ lift expect path look ◌>>◌ when push attempt direct_children_ids
    option_eq forgot
removes = refl

forgotten : content_id_for_path removed.state child ≡ ok none
unfolding content_id_for_path
forgotten = refl

child_seen : ignore_file child ≡ false
unfolding ignore_file ends_with
child_seen = refl

removal-child_error_example :
    (reported : DiskEvent) × (digest_event (λ p. false) (remove (workspace ++ child)) workspace
      ≡ ok (reported ∷ []))
    × (operate host memory_state workspace 3 (Event.local (from_disk_event reported)) removed
        ≡ some (err (executor_error unexpected), removed))
unfolding to_path_buf
removal-child_error_example =
    removal-child_error host memory_state workspace 3 1 (content_of 1 "Folder" none folder)
      (content_of 1 "Folder" none folder ∷ []) before removed "a.txt" [] (λ p. false) refl at_root
      known parts refl removes forgotten refl child_seen
