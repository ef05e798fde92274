-- ===== src/Tests/Echo.antt =====
-- The operator and the watcher of the folder.
use trsync.Base.{
  ◌≡◌, refl, false, none, some, [], ◌∷◌, ◌++◌, ok, contains, nat_eq, option_eq, string_eq,
  ends_with, arith,
}
use trsync.Core.Types.{file}
use trsync.Core.Content.{Content, from_remote}
use trsync.Event.{DiskEvent, DiskEventWrap, RemoteEvent, Event, wrap, event_eq, from_disk_event}
use trsync.Sync.Local.{ignore_file}
use trsync.State.{StateModification}
use trsync.State.Memory.{MemoryState, memory_state, get, path, direct_children_ids, forgot, add}
use trsync.Local.Watcher.{remove, digest_event}
use trsync.Local.Reducer.{next_event}
use trsync.State.Path.{to_path_buf}
use trsync.Operation.Host.{Host}
use trsync.Operation.Exec.{
  Context, pure, call, ◌>>=◌, lift, expect, look, ◌>>◌, when, push, attempt,
}
use trsync.Operation.Disk.{present_on_disk}
use trsync.Operation.Disk.Announced.{path_below}
use trsync.Operation.Operator.{Operator, operate, attachment_in_state, under_no_folder}
use trsync.Operation.Operator.Echo.{none_yet, one_more, removal-no_echo}
use trsync.Operation.Operator.Swallowed.{arrival-swallows}
use trsync.Tests.Data.{path_a, path_b, workspace, content_of, raw, host, start}

abbrev flat : MemoryState
flat = record { contents = (1, content_of 1 "a.txt" none file) ∷ []; timestamps = [] }

abbrev before : Operator host memory_state workspace
before = record { state = flat; context = start }

abbrev removal : Event
removal = Event.local (wrap path_a (DiskEvent.deleted path_a))

abbrev removed : Operator host memory_state workspace
removed = record {
  state = record { contents = []; timestamps = [] };
  context = record { world = 1; ignore_events = removal ∷ [] };
}

parts : path flat 1 ≡ ok (content_of 1 "a.txt" none file ∷ [])
unfolding path nat_eq
parts = refl

known : get flat 1 ≡ ok (some (content_of 1 "a.txt" none file))
unfolding get nat_eq
known = refl

removes :
    operate host memory_state workspace 2 (Event.remote (RemoteEvent.deleted 1)) before
    ≡ some (ok tt, removed)
unfolding operate get nat_eq ◌>>=◌ lift expect path look ◌>>◌ when push attempt direct_children_ids
    option_eq forgot
removes = refl

fresh : contains before.context.ignore_events (Event.remote (RemoteEvent.deleted 1)) ≡ false
fresh = refl

own : attachment_in_state host memory_state workspace flat 1 ≡ ok false
unfolding attachment_in_state get nat_eq
own = refl

seen : ignore_file path_a ≡ false
unfolding ignore_file string_eq ends_with
seen = refl

removal-no_echo_example :
    (reported : DiskEvent) × (w : DiskEventWrap) × (o3 : Operator host memory_state workspace)
    × (digest_event (λ p. false) (remove (workspace ++ path_a)) workspace ≡ ok (reported ∷ []))
    × (next_event (reported ∷ []) ≡ (some w, []))
    × (operate host memory_state workspace 2 (Event.local w) removed ≡ some (ok tt, o3))
    × (o3.state ≡ removed.state)
    × (o3.context.world ≡ 1)
unfolding from_disk_event to_path_buf
removal-no_echo_example =
    removal-no_echo host memory_state workspace 2 1 (content_of 1 "a.txt" none file)
      (content_of 1 "a.txt" none file ∷ []) before removed removed (λ p. false) fresh own known
      parts refl seen removes none_yet

-- A folder without files.
abbrev empty_host : Host
empty_host = record host { exists = λ w p. false }

abbrev waiting : Operator empty_host memory_state workspace
waiting = record { state = flat; context = record { world = 0; ignore_events = [] } }

abbrev new_content : Content
new_content = record {
  id = 5;
  revision_id = 2;
  file_name = "b.txt";
  parent_id = none;
  type_ = file;
}

abbrev creation : Event
creation = Event.local (wrap path_b (DiskEvent.created path_b))

abbrev modification : Event
modification = Event.local (wrap path_b (DiskEvent.modified path_b))

abbrev arrived : MemoryState
arrived = record {
  contents = (1, content_of 1 "a.txt" none file) ∷ (5, new_content) ∷ [];
  timestamps = (5, 7) ∷ [];
}

abbrev written : Context empty_host
written = record { world = 2; ignore_events = creation ∷ creation ∷ modification ∷ [] }

abbrev downloaded : Operator empty_host memory_state workspace
downloaded = record { state = arrived; context = written }

-- The creation has come back.
abbrev settled : Operator empty_host memory_state workspace
settled = record downloaded { context = record written { ignore_events = modification ∷ [] } }

parsed : from_remote (raw 5 none) ≡ ok new_content
unfolding from_remote string_eq
parsed = refl

downloads :
    present_on_disk empty_host memory_state workspace flat 5 waiting.context
    ≡ (ok (StateModification.add new_content path_b 7 ∷ []), written)
unfolding present_on_disk ◌>>=◌ call string_eq nat_eq pure look ◌>>◌ when push
downloads = refl

arrives :
    operate empty_host memory_state workspace 2 (Event.remote (RemoteEvent.created 5)) waiting
    ≡ some (ok tt, downloaded)
unfolding operate nat_eq ◌>>=◌ call string_eq pure look ◌>>◌ when push add
arrives = refl

settles : operate empty_host memory_state workspace 2 creation downloaded ≡ some (ok tt, settled)
unfolding operate event_eq
settles = refl

not_yet : contains waiting.context.ignore_events (Event.remote (RemoteEvent.created 5)) ≡ false
not_yet = refl

arrival-swallows_example :
    (next_event (DiskEvent.created path_b ∷ DiskEvent.modified path_b ∷ [])
      ≡ (some (from_disk_event (DiskEvent.created path_b)), []))
    × (o3 : Operator empty_host memory_state workspace) × (operate empty_host memory_state workspace
          2
          (Event.local (from_disk_event (DiskEvent.modified path_b)))
          settled
        ≡ some (ok tt, o3))
    × (o3.state ≡ arrived)
    × (o3.context.world ≡ 2)
unfolding from_disk_event nat_eq under_no_folder path_below
arrival-swallows_example =
    arrival-swallows empty_host memory_state workspace 2 5 (raw 5 none) (raw 5 none) new_content
      path_b 0 0 (StateModification.add new_content path_b 7 ∷ []) written waiting downloaded
      settled not_yet refl refl refl parsed refl (λ e. ground arith) downloads arrives
      (one_more creation (ok tt) none_yet (λ e. ground arith) settles)
