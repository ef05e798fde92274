-- ===== src/Remote/Watcher.antt =====
-- trsync/src/remote/watcher.rs: the messages that the server's live events become. The decoding of a line
-- (`from_utf8`, `serde_json`) and the database are parameters.
pub mod Reference
pub mod Listen
use Prim.Native.Nat.{◌%◌, ◌^◌}
use trsync.Base.{
  ℕ, String, Bool, true, false, ◌||◌, Option, none, some, List, [], ◌∷◌, Outcome, ok, err, ◌>>=◌,
  map_err, ok_or, find, ◌==◌, nat_eq, string_eq, if◌then◌else◌,
}
use trsync.Base.Lines.{Text, codes, lines, drop, begins_with}
use trsync.Core.Json.{Json, integer_of}
use trsync.Core.Types.{ContentId, parse_event_type}
use trsync.Event.{RemoteEvent, deleted, created, updated}
use trsync.Ignore.{Ignore, is_ignored}
use trsync.State.Disk.{Row, SqlError}

-- What ends the work on an event early: an error of the crate, or a panic.
pub data Stop : Type 0 where
  error panic : Stop

pub record TracimLiveEvent (J : Json) : Type 0 where
  pub event_type : String
  pub fields : J.Value

-- The second match on the type of the event.
unfoldable pub message_of : String → ContentId → Outcome Stop RemoteEvent
message_of event_type id =
    if event_type == "content.modified.html-document"
      || event_type == "content.modified.file"
      || event_type == "content.modified.folder"
    then ok (updated id)
    else if event_type == "content.created.html-document"
        || event_type == "content.created.file"
        || event_type == "content.created.folder"
    then ok (created id)
    else if event_type == "content.deleted.html-document"
        || event_type == "content.deleted.file"
        || event_type == "content.deleted.folder"
    then ok (deleted id)
    else if event_type == "content.undeleted.html-document"
        || event_type == "content.undeleted.file"
        || event_type == "content.undeleted.folder"
    then ok (created id)
    else err error

-- `DatabaseOperation::content_id_is_known`
unfoldable pub content_id_is_known : Outcome SqlError (List Row) → ContentId → Outcome SqlError Bool
content_id_is_known selected id = do
  rows ← selected
  elim (find (λ (r : Row). r.content_id == id) rows) [ none ↦ ok false | some row ↦ ok true ]

module _ (J : Json) where
  -- `fields[name].as_object()?[key].as_i64()? as i32`
  unfoldable pub integer : J.Value → String → String → Outcome Stop ℕ
  integer fields name key = integer_of J error panic (J.index fields name) key

  module _ (ignore : Ignore) (workspace_id : ℕ) (selected : Outcome SqlError (List Row)) where
    -- A content that is known here and is now of another workspace has left this one.
    abbrev message : String → ContentId → Bool → Outcome Stop (Option RemoteEvent)
    message event_type id true = do m ← message_of event_type id; ok (some m)
    message event_type id false = do
      known ← map_err (λ _. error) (content_id_is_known selected id)
      ok (if known then some (deleted id) else none)

    abbrev unless_ignored : TracimLiveEvent J → ContentId → Bool → Outcome Stop (Option RemoteEvent)
    unless_ignored event id true = ok none
    unless_ignored event id false = do
      workspace ← integer event.fields "workspace" "workspace_id"
      message event.event_type id (workspace_id == workspace)

    -- `proceed_remote_event`: the message that is sent; a failing send is only logged.
    unfoldable pub proceed_remote_event : TracimLiveEvent J → Outcome Stop (Option RemoteEvent)
    unfolding parse_event_type message_of content_id_is_known integer is_ignored
    proceed_remote_event event = elim (parse_event_type event.event_type) [
      | err _ ↦ ok none
      | ok _ ↦ do
        id ← integer event.fields "content" "content_id"
        unless_ignored event id (is_ignored ignore id)
    ]

    -- How the work on a chunk ended, and the messages sent.
    abbrev pub Sent : Type 0
    Sent = Outcome Stop (Unit {0}) × List RemoteEvent

    abbrev pub sent_before : Outcome Stop (Option RemoteEvent) → Sent → Sent
    sent_before (err e) rest = (err e, [])
    sent_before (ok none) rest = rest
    sent_before (ok (some m)) (r, later) = (r, m ∷ later)

    module _ (from_str : Text → Option (TracimLiveEvent J)) where
      -- The loop of `proceed_event_lines`; a line that cannot be decoded is only logged.
      unfoldable pub proceed_lines : List Text → Sent
      unfolding proceed_remote_event begins_with drop
      proceed_lines [] = (ok tt, [])
      proceed_lines (line ∷ rest) =
          let later = proceed_lines rest in
          if begins_with line (codes "data: ")
          then (elim (from_str (drop 6 line)) [
            | none ↦ later
            | some event ↦ sent_before (proceed_remote_event event) later
          ])
          else later

      -- `proceed_event_lines`
      unfoldable pub proceed_event_lines : (Text → Option Text) → Text → Sent
      unfolding proceed_lines lines begins_with
      proceed_event_lines from_utf8 bytes =
          if begins_with bytes (codes "event: message")
          then (elim (from_utf8 bytes) [
            | none ↦ (err error, [])
            | some text ↦ proceed_lines (lines text)
          ])
          else (ok tt, [])
