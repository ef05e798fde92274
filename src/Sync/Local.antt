-- ===== src/Sync/Local.antt =====
-- trsync/src/sync/local.rs: the changes of the folder since the last synchronization. The walk over the
-- folder (`walkdir`) gives the entries; the rows come from the table `file`.
pub mod Quiet
use trsync.Base.{
  Bool, true, false, not, ◌&&◌, ◌||◌, Option, none, some, List, [], ◌∷◌, ◌++◌, map, Outcome, ok,
  err, ◌>>=◌, ◌>>◌, contains, filter, find, ◌==◌, list_eq, string_eq, nat_eq, if◌then◌else◌,
  starts_with, ends_with,
}
use trsync.Core.Types.{FilePath, DiskTimestamp, file_name}
use trsync.Core.Content.{Anyhow, failed}
use trsync.Core.Change.Local.{LocalChange, new, updated, disappear}
use trsync.State.Disk.{Row}

-- `ignore_file` of trsync/src/util.rs
unfoldable pub ignore_file : FilePath → Bool
unfolding file_name
ignore_file path = elim (file_name path) [
  | none ↦ false
  | some name ↦
      starts_with name "." || starts_with name "~" || ends_with name "~" || starts_with name "#"
]

-- Is the path ignored, or below one that is? `filter_entry` does not go into a folder that it passes over.
unfoldable pub hidden : FilePath → Bool
unfolding ignore_file
hidden [] = false
hidden (name ∷ path) = ignore_file (name ∷ []) || hidden path

-- An entry below the synchronized folder: its path there, whether it is a directory,
-- and its time in milliseconds.
pub record DirEntry : Type 0 where
  pub relative_path : FilePath
  pub is_dir : Bool
  pub last_modified : Outcome Anyhow DiskTimestamp

-- The entries that the walk gives of those that are there, after the folder itself; none where the folder's own
-- name is ignored.
unfoldable pub walk : FilePath → List DirEntry → List DirEntry
unfolding ignore_file hidden
walk workspace_path entries =
    if ignore_file workspace_path
    then []
    else filter (λ (entry : DirEntry). not (hidden entry.relative_path)) entries

-- `disk_relative_paths`; that of the folder itself is empty.
unfoldable pub disk_relative_paths : FilePath → List DirEntry → List FilePath
unfolding ignore_file walk
disk_relative_paths workspace_path entries =
    if ignore_file workspace_path
    then []
    else [] ∷ map (λ (entry : DirEntry). entry.relative_path) (walk workspace_path entries)

module _ (rows : List Row) where
  -- SELECT … WHERE relative_path = ?
  unfoldable pub row_of : FilePath → Option Row
  row_of path = find (λ (row : Row). row.relative_path == path) rows

  unfoldable pub previously_known : FilePath → Bool
  unfolding row_of
  previously_known path = elim (row_of path) [ none ↦ false | some row ↦ true ]

  unfoldable pub previously_known_disk_timestamp : FilePath → Outcome Anyhow DiskTimestamp
  unfolding row_of
  previously_known_disk_timestamp path = elim (row_of path) [
    | none ↦ err failed
    | some row ↦ ok row.last_modified_timestamp
  ]

  -- The time of a folder is not looked at.
  abbrev when_known : Bool → DiskTimestamp → FilePath → Outcome Anyhow (Option LocalChange)
  when_known true modified path = ok none
  when_known false modified path = do
    before ← previously_known_disk_timestamp path
    ok (if modified == before then none else some (updated path))

  abbrev change_of : Bool → DirEntry → Outcome Anyhow (Option LocalChange)
  change_of true entry = do
    modified ← entry.last_modified
    when_known entry.is_dir modified entry.relative_path
  change_of false entry = ok (some (new entry.relative_path))

  -- `LocalSync::change`
  unfoldable pub change : DirEntry → Outcome Anyhow (Option LocalChange)
  unfolding previously_known previously_known_disk_timestamp
  change entry = change_of (previously_known entry.relative_path) entry

  abbrev prepend : Option LocalChange → List LocalChange → List LocalChange
  prepend none changes = changes
  prepend (some c) changes = c ∷ changes

  -- The loop over the entries of the walk, but for the folder itself.
  unfoldable pub changes_from_disk : List DirEntry → Outcome Anyhow (List LocalChange)
  unfolding change
  changes_from_disk [] = ok []
  changes_from_disk (entry ∷ rest) = do
    c ← change entry
    cs ← changes_from_disk rest
    ok (prepend c cs)

  -- `changes_from_db`
  unfoldable pub changes_from_db : List FilePath → List LocalChange
  changes_from_db on_disk =
      map disappear
        (filter (λ p. not (contains on_disk p)) (map (λ (row : Row). row.relative_path) rows))

  -- `changes`, of the entries that are in the folder
  unfoldable pub changes : FilePath → List DirEntry → Outcome Anyhow (List LocalChange)
  unfolding walk disk_relative_paths changes_from_disk changes_from_db
  changes workspace_path entries = do
    cs ← changes_from_disk (walk workspace_path entries)
    ok (cs ++ changes_from_db (disk_relative_paths workspace_path entries))
