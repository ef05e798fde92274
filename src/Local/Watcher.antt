-- ===== src/Local/Watcher.antt =====
-- trsync/src/local/watcher.rs: the events that a change of the folder becomes. The watch itself is the
-- library notify; what it reports, and whether a path is a directory by then, are arguments.
pub mod Renamed
pub mod Listen
use trsync.Base.{
  ℕ, Bool, true, false, Option, none, some, List, [], ◌∷◌, Outcome, ok, err, ◌>>=◌, ok_or, ◌==◌,
  string_eq, if◌then◌else◌,
}
use trsync.Core.Types.{FileName, FilePath, ContentType, content_type_eq, from_path}
use trsync.Core.Content.{Anyhow, failed}
use trsync.Event.{DiskEvent, deleted, created, modified, renamed}
use trsync.Sync.Local.{ignore_file}

-- `DebouncedEvent` of notify, as the source matches it
pub data DebouncedEvent : Type 0 where
  create write remove notice_write notice_remove chmod : FilePath → DebouncedEvent
  rename : FilePath → FilePath → DebouncedEvent
  rescan error : DebouncedEvent

-- `Path::strip_prefix`
unfoldable pub strip_prefix : FilePath → FilePath → Option FilePath
strip_prefix path [] = some path
strip_prefix [] (d ∷ prefix) = none
strip_prefix (c ∷ path) (d ∷ prefix) = if c == d then strip_prefix path prefix else none

-- `IntoRelative::relative`
unfoldable pub relative : FilePath → FilePath → Outcome Anyhow FilePath
unfolding strip_prefix
relative path prefix = ok_or (strip_prefix path prefix) failed

-- The path that the event is about; `none` for an event that is passed over.
unfoldable pub event_path : DebouncedEvent → Option FilePath
event_path (create path) = some path
event_path (write path) = some path
event_path (remove path) = some path
event_path (rename path _) = some path
event_path (notice_write _) = none
event_path (notice_remove _) = none
event_path (chmod _) = none
event_path rescan = none
event_path error = none

module _ (is_dir : FilePath → Bool) where
  -- A renaming that changes the type of the content counts as a new file.
  unfoldable pub rename_messages : FilePath → FilePath → FilePath → Outcome Anyhow (List DiskEvent)
  unfolding relative from_path
  rename_messages workspace source dest =
      if from_path (is_dir source) source == from_path (is_dir dest) dest
      then (do
        before ← relative source workspace
        after ← relative dest workspace
        ok (renamed before after ∷ []))
      else (do
        before ← relative source workspace
        after ← relative dest workspace
        ok (deleted before ∷ created after ∷ []))

  unfoldable pub messages_of : FilePath → DebouncedEvent → Outcome Anyhow (List DiskEvent)
  unfolding rename_messages
  messages_of workspace (create path) = do p ← relative path workspace; ok (created p ∷ [])
  messages_of workspace (write path) = do p ← relative path workspace; ok (modified p ∷ [])
  messages_of workspace (remove path) = do p ← relative path workspace; ok (deleted p ∷ [])
  messages_of workspace (rename source dest) = rename_messages workspace source dest
  messages_of workspace (notice_write _) = ok []
  messages_of workspace (notice_remove _) = ok []
  messages_of workspace (chmod _) = ok []
  messages_of workspace rescan = ok []
  messages_of workspace error = ok []

  -- `digest_event`: the messages that are sent; a failing send is only logged.
  unfoldable pub digest_event : DebouncedEvent → FilePath → Outcome Anyhow (List DiskEvent)
  unfolding event_path relative ignore_file messages_of
  digest_event event workspace = elim (event_path event) [
    | none ↦ ok []
    | some path ↦ do
      relative_path ← relative path workspace
      if ignore_file relative_path then ok [] else messages_of workspace event
  ]
