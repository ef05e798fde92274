-- ===== src/Tests/Startup.antt =====
-- The startup synchronization and the runner.
use trsync.Base.{
  All, ℕ, suc, ◌≡◌, ◌↔◌, refl, Bool, true, false, not, none, some, List, [], ◌∷◌, map, filter,
  contains, ok, nat_eq, list_eq, string_eq, option_eq, ends_with,
}
use trsync.Core.Change.Local.{LocalChange}
use trsync.Core.Change.Remote.{RemoteChange}
use trsync.Core.Change.Local as LocalPath
use trsync.Core.Change.Remote as RemotePath
use trsync.Event.{Event, RemoteEvent}
use trsync.Sync.{force_local, force_remote, resolve}
use trsync.Sync.Resolved.{resolve-reference}
use trsync.Sync.Local.{DirEntry, changes, ignore_file}
use trsync.Sync.Local.Quiet.{InSync, OnDisk, paths_of, changes-quiet}
use trsync.Core.Content.{Content}
use trsync.Core.Types.{file, folder, content_type_eq}
use trsync.State.Memory.{contents}
use trsync.Sync.Remote as Remote
use trsync.Sync.Remote.Quiet.{UpToDate, OnServer, changes-OnServer}
use trsync.Sync.Remote.{gone, is_deleted}
use trsync.Sync.Remote.Deleted.{Alive, is_deleted-Alive}
use trsync.Runner.{Interface, event, Turn}
use trsync.Tests.Data.{content_of, state_of_tree, path_a, path_b, raw, workspace}
use trsync.Tests.Stores.{rows}

abbrev new_b : RemoteChange
new_b = RemoteChange.new 2 path_b

abbrev updated_a : LocalChange
updated_a = LocalChange.updated path_a

resolve-reference_example :
    (resolve (record {
      remote_changes = new_b ∷ [];
      local_changes = updated_a ∷ [];
      method = force_local;
    })
      ≡ ok (
        filter
            (λ c. not (contains (map LocalPath.path (updated_a ∷ [])) (RemotePath.path c)))
            (new_b ∷ []),
        updated_a ∷ [],
      ))
    × (resolve (record {
      remote_changes = new_b ∷ [];
      local_changes = updated_a ∷ [];
      method = force_remote;
    })
        ≡ ok (
          new_b ∷ [],
          filter
              (λ c. not (contains (map RemotePath.path (new_b ∷ [])) (LocalPath.path c)))
              (updated_a ∷ []),
        ))
resolve-reference_example = resolve-reference (new_b ∷ []) (updated_a ∷ [])

abbrev entries : List DirEntry
entries =
    record { relative_path = "Folder" ∷ []; is_dir = true; last_modified = ok 3 }
    ∷ record { relative_path = "Folder" ∷ "a.txt" ∷ []; is_dir = false; last_modified = ok 0 }
    ∷ record { relative_path = ".cache" ∷ []; is_dir = false; last_modified = ok 9 }
    ∷ []

named : ignore_file workspace ≡ false
unfolding ignore_file string_eq ends_with
named = refl

changes-quiet_example :
    (changes rows workspace entries ≡ ok [])
    ↔ (InSync rows entries × OnDisk (paths_of entries) rows)
changes-quiet_example = changes-quiet rows workspace entries named

is_deleted-Alive_example :
    ((fuel : ℕ) × (is_deleted (raw 1 none ∷ []) fuel (raw 2 (some 1)) ≡ some false))
    ↔ ((gone (raw 2 (some 1)) ≡ false) × Alive (raw 1 none ∷ []) (some 1))
is_deleted-Alive_example = is_deleted-Alive (raw 1 none ∷ []) (raw 2 (some 1))

-- An operator that counts what it has done, and a user that refuses.
abbrev interface : Interface
interface = record {
  Operator = ℕ;
  operate = λ e o. (ok tt, suc o);
  send = λ a o. (true, o);
  deal = λ r l o. (ok false, o);
}

abbrev turn : Bool → Turn
turn stop = record {
  received = event (Event.remote (RemoteEvent.created 1));
  stop_requested = stop;
  restart_requested = false;
}

abbrev on_server : List Content
on_server = content_of 1 "Folder" none folder ∷ content_of 2 "a.txt" (some 1) file ∷ []

listed : contents state_of_tree ≡ ok on_server
unfolding contents content_type_eq
listed = refl

changes-OnServer_example : (Remote.changes (7 ∷ []) rows state_of_tree ≡ ok []) ↔ (
    All (UpToDate (7 ∷ []) rows state_of_tree) on_server
    × All (OnServer (7 ∷ []) rows state_of_tree) rows)
changes-OnServer_example = changes-OnServer (7 ∷ []) rows state_of_tree on_server listed
