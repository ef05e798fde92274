-- ===== src/Sync.antt =====
-- trsync/src/sync: the changes that the startup synchronization finds, and the resolution of those
-- that are in conflict (`StartupSyncResolver`).
pub mod Local
pub mod Remote
pub mod Resolved
use trsync.Base.{Bool, not, ◌≡◌, List, map, Outcome, ok, contains, filter, list_eq, string_eq}
use trsync.Core.Types.{FilePath}
use trsync.Core.Change.Local.{LocalChange}
use trsync.Core.Change.Remote.{RemoteChange}
use trsync.Core.Change.Local as LocalPath
use trsync.Core.Change.Remote as RemotePath
use trsync.Core.Content.{Anyhow}

pub data ResolveMethod : Type 0 where
  force_local force_remote : ResolveMethod

pub record StartupSyncResolver : Type 0 where
  pub remote_changes : List RemoteChange
  pub local_changes : List LocalChange
  pub method : ResolveMethod

module _ (r : StartupSyncResolver) where
  unfoldable pub local_changes_paths : List FilePath
  local_changes_paths = map LocalPath.path r.local_changes

  unfoldable pub paths_in_conflicts : List FilePath
  unfolding local_changes_paths
  paths_in_conflicts = filter (contains local_changes_paths) (map RemotePath.path r.remote_changes)

  abbrev kept : ResolveMethod → List RemoteChange × List LocalChange
  kept force_local = (
    filter (λ c. not (contains paths_in_conflicts (RemotePath.path c))) r.remote_changes,
    r.local_changes,
  )
  kept force_remote = (
    r.remote_changes,
    filter (λ c. not (contains paths_in_conflicts (LocalPath.path c))) r.local_changes,
  )

  -- `resolve`, which always succeeds
  unfoldable pub resolve : Outcome Anyhow (List RemoteChange × List LocalChange)
  unfolding paths_in_conflicts
  resolve = ok (kept r.method)
