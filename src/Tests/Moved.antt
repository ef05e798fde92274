-- ===== src/Tests/Moved.antt =====
-- A folder that is renamed on the server.
use trsync.Base.{
  Bool, ◌==◌, ◌≡◌, ◌≢◌, refl, ap, true, false, none, some, [], ◌∷◌, ◌++◌, ok, err, nat_eq, list_eq,
  string_eq, option_eq, ends_with,
}
use mathlib.Core.Bool.{true≢false}
use trsync.Core.Types.{FilePath, folder}
use trsync.Core.Content.{Content, RemoteContent, from_remote}
use trsync.Core.Error.{executor_error, unexpected}
use trsync.Event.{DiskEvent, RemoteEvent, Event, event_eq, from_disk_event}
use trsync.Sync.Local.{ignore_file}
use trsync.State.{StateModification}
use trsync.State.Path.{to_path_buf}
use trsync.State.Memory.{MemoryState, memory_state, known, get, path, content_id_for_path, update}
use trsync.Local.Watcher.{rename, digest_event}
use trsync.Local.Reducer.{next_event}
use trsync.Operation.Host.{Host}
use trsync.Operation.Operator.{Operator, operate, attachment_in_state, apply_changes}
use trsync.Operation.Operator.MovedFolder.{remote_rename-error}
use trsync.Tests.Data.{workspace, content_of, raw, host}

abbrev old : FilePath
old = "Old" ∷ []

abbrev the_new : FilePath
the_new = "New" ∷ []

abbrev raw_folder : RemoteContent
raw_folder = record (raw 1 none) { content_type = "folder"; filename = "New" }

abbrev renamed_on_server : Host
renamed_on_server = record host { get_content = λ id w. (ok raw_folder, w) }

abbrev new_folder : Content
new_folder = record (content_of 1 "New" none folder) { revision_id = 2 }

abbrev with_old : MemoryState
with_old = record { contents = (1, content_of 1 "Old" none folder) ∷ []; timestamps = [] }

abbrev with_new : MemoryState
with_new = record { contents = (1, new_folder) ∷ []; timestamps = (1, 7) ∷ [] }

abbrev before_renaming : Operator renamed_on_server memory_state workspace
before_renaming = record { state = with_old; context = record { world = 0; ignore_events = [] } }

parts_of_old : path with_old 1 ≡ ok (content_of 1 "Old" none folder ∷ [])
unfolding path nat_eq
parts_of_old = refl

root_folder : attachment_in_state renamed_on_server memory_state workspace with_old 1 ≡ ok false
unfolding attachment_in_state get nat_eq
root_folder = refl

parsed_folder : from_remote raw_folder ≡ ok new_folder
unfolding from_remote string_eq
parsed_folder = refl

known_old : known with_old 1 ≡ ok true
unfolding known nat_eq
known_old = refl

abbrev is_new : FilePath → Bool
is_new p = p == (workspace ++ the_new)

stored :
    apply_changes renamed_on_server memory_state workspace 1
      (StateModification.update 1 "New" 2 none 7 ∷ [])
      with_old
    ≡ some (ok tt, with_new)
unfolding apply_changes update nat_eq
stored = refl

old_unknown : content_id_for_path with_new old ≡ ok none
unfolding content_id_for_path path nat_eq list_eq to_path_buf string_eq
old_unknown = refl

differ : workspace ++ old ≢ workspace ++ the_new
unfolding list_eq string_eq
differ = λ e. true≢false (ap (λ p. p == (workspace ++ old)) e)

old_seen : ignore_file old ≡ false
unfolding ignore_file string_eq ends_with
old_seen = refl

gone : is_new (workspace ++ old) ≡ false
unfolding list_eq string_eq
gone = refl

there : is_new (workspace ++ the_new) ≡ true
unfolding list_eq string_eq
there = refl

remote_rename-error_example :
    (o1 : Operator renamed_on_server memory_state workspace) × (before after : DiskEvent) × (operate
        renamed_on_server memory_state workspace 1
        (Event.remote (RemoteEvent.updated 1))
        before_renaming
      ≡ some (ok tt, o1))
    × (digest_event is_new (rename (workspace ++ old) (workspace ++ the_new)) workspace
        ≡ ok (before ∷ after ∷ []))
    × (next_event (before ∷ after ∷ []) ≡ (some (from_disk_event before), after ∷ []))
    × (operate renamed_on_server memory_state workspace 1 (Event.local (from_disk_event before)) o1
        ≡ some (err (executor_error unexpected), o1))
unfolding to_path_buf
remote_rename-error_example =
    remote_rename-error renamed_on_server memory_state workspace 1 1
      (content_of 1 "Old" none folder ∷ []) raw_folder new_folder before_renaming 0 1 2 7 with_new
      is_new refl root_folder known_old parts_of_old refl parsed_folder refl refl differ refl refl
      stored old_unknown refl gone there old_seen
