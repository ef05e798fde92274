-- ===== src/Remote/Watcher/Reference.antt =====
-- trsync/src/remote/watcher.rs: which events become a message, and how an error ends a chunk.
use trsync.Base.{
  ℕ, String, Bool, true, false, Bool-cases, inl, inr, Option, none, some, List, [], ◌∷◌, ◌++◌,
  Outcome, ok, err, ◌≡◌, refl, arith, map, contains, Option-cases, Outcome-cases, ◌==◌, nat_eq,
  string_eq, if◌then◌else◌,
}
use trsync.Base.Lines.{Text, codes, drop, begins_with}
use trsync.Core.Json.{Json}
use trsync.Core.Types.{ContentId, RemoteEventType, created, modified, deleted, parse_event_type}
use trsync.Event.{RemoteEvent}
use trsync.Ignore.{Ignore, is_ignored}
use trsync.State.Disk.{Row, SqlError}
use trsync.Remote.Watcher.{
  Stop, TracimLiveEvent, message_of, content_id_is_known, integer, proceed_remote_event, Sent,
  proceed_lines,
}

abbrev pub event_of : RemoteEventType → ContentId → RemoteEvent
event_of created id = RemoteEvent.created id
event_of modified id = RemoteEvent.updated id
event_of deleted id = RemoteEvent.deleted id

-- What is to be sent for a content, in three questions: is it ignored, is it of this workspace, is it known.
abbrev pub expected : RemoteEventType → ContentId → Bool → Bool → Bool → Option RemoteEvent
expected kind id true here known = none
expected kind id false true known = some (event_of kind id)
expected kind id false false known = if known then some (RemoteEvent.deleted id) else none

-- The two tables of types agree, so that the error of the second one does not occur.
message_of-parse :
    (event_type : String) (kind : RemoteEventType) (id : ContentId)
    → parse_event_type event_type ≡ ok kind
    → message_of event_type id ≡ ok (event_of kind id)
unfolding parse_event_type message_of
message_of-parse event_type kind id h = ground arith

content_id_is_known-contains :
    (rows : List Row) (id : ContentId)
    → content_id_is_known (ok rows) id ≡ ok (contains (map (λ (r : Row). r.content_id) rows) id)
unfolding content_id_is_known
content_id_is_known-contains [] id = refl
content_id_is_known-contains (row ∷ rows) id = ground (arith, content_id_is_known-contains rows id)

module _ (J : Json) (ignore : Ignore) (workspace_id : ℕ)
    (selected : Outcome SqlError (List Row)) where
  -- A well-formed event of a kind that is looked at becomes the one message that is expected: none where the
  -- content is ignored, that of its kind where it is of this workspace, and otherwise a deletion where the
  -- content is known here.
  pub proceed_remote_event-expected :
      (rows : List Row) (event : TracimLiveEvent J) (kind : RemoteEventType) (id workspace : ℕ)
      → selected ≡ ok rows
      → parse_event_type event.event_type ≡ ok kind
      → integer J event.fields "content" "content_id" ≡ ok id
      → integer J event.fields "workspace" "workspace_id" ≡ ok workspace
      → proceed_remote_event J ignore workspace_id selected event
        ≡ ok (
            expected kind id
              (is_ignored ignore id)
              (workspace_id == workspace)
              (contains (map (λ (r : Row). r.content_id) rows) id))
  unfolding proceed_remote_event
  proceed_remote_event-expected rows event kind id workspace s p c w =
      elim (Bool-cases (is_ignored ignore id)) [
        | inl i ↦ rw (proceed_remote_event, p, c, i) refl
        | inr i ↦ elim (Bool-cases (workspace_id == workspace)) [
          | inl h ↦
              rw (proceed_remote_event, p, c, i, w, h, message_of-parse event.event_type kind id p)
                refl
          | inr h ↦
              rw (proceed_remote_event, p, c, i, w, h, s, content_id_is_known-contains rows id) refl
        ]
      ]

  module _ (from_str : Text → Option (TracimLiveEvent J)) where
    abbrev all_lines : List Text → Sent J ignore workspace_id selected
    all_lines = proceed_lines J ignore workspace_id selected from_str

    stopped_here :
        (after : List Text) (line : Text) (event : TracimLiveEvent J) (why : Stop)
        → begins_with line (codes "data: ") ≡ true
        → from_str (drop 6 line) ≡ some event
        → proceed_remote_event J ignore workspace_id selected event ≡ err why
        → all_lines (line ∷ after) ≡ (err why, [])
    unfolding proceed_lines
    stopped_here after line event why d e w = rw (proceed_lines, d, e, w) refl

    proceed_lines-append :
        (before after : List Text) (r : Outcome Stop (Unit {0}))
        → (all_lines before).0 ≡ ok tt
        → all_lines after ≡ (r, [])
        → all_lines (before ++ after) ≡ (r, (all_lines before).1)
    unfolding proceed_lines
    proceed_lines-append [] after r h e = e
    proceed_lines-append (line ∷ before) after r h e =
        elim (Bool-cases (begins_with line (codes "data: "))) [
          | inr n ↦ ground (arith, proceed_lines-append before after r)
          | inl d ↦ elim (Option-cases (from_str (drop 6 line))) [
            | inl q ↦ ground (arith, proceed_lines-append before after r)
            | inr (event, q) ↦
                elim (Outcome-cases (proceed_remote_event J ignore workspace_id selected event)) [
                  | inl (f, w) ↦ absurd (ground arith)
                  | inr (none, w) ↦ ground (arith, proceed_lines-append before after r)
                  | inr (some m, w) ↦ ground (arith, proceed_lines-append before after r)
                ]
          ]
        ]

    -- An event that stops with an error ends the work on the lines that came with it: where those before it
    -- are proceeded, their messages are sent, and what follows is not looked at.
    pub proceed_lines-stopped :
        (before after : List Text) (line : Text) (event : TracimLiveEvent J) (why : Stop)
        → (proceed_lines J ignore workspace_id selected from_str before).0 ≡ ok tt
        → begins_with line (codes "data: ") ≡ true
        → from_str (drop 6 line) ≡ some event
        → proceed_remote_event J ignore workspace_id selected event ≡ err why
        → proceed_lines J ignore workspace_id selected from_str (before ++ line ∷ after)
          ≡ (err why, (proceed_lines J ignore workspace_id selected from_str before).1)
    proceed_lines-stopped before after line event why h d e w =
        proceed_lines-append before (line ∷ after) (err why) h
          (stopped_here after line event why d e w)
