-- ===== src/Remote/Watcher/Listen.antt =====
-- trsync/src/remote/watcher.rs: the loop of `RemoteWatcher::listen`, over what the stream of live messages gives.
use trsync.Base.{ℕ, Bool, true, false, Option, List, [], ◌∷◌, ◌++◌, Outcome, if◌then◌else◌}
use trsync.Base.Lines.{Text, ltb}
use trsync.Core.Json.{Json}
use trsync.Event.{RemoteEvent}
use trsync.Ignore.{Ignore}
use trsync.Remote.Watcher.{TracimLiveEvent, proceed_event_lines}
use trsync.State.Disk.{Row, SqlError}

-- What a turn gets within 250 ms: bytes, an error of the stream, or neither, with the seconds since the last
-- activity; the end of the stream counts as neither.
pub data Heard : Type 0 where
  lines_heard : Text → Heard
  unreadable : Heard
  silence : ℕ → Heard

pub record Turn : Type 0 where
  pub heard : Heard
  pub stop_requested : Bool

-- `LAST_ACTIVITY_TIMEOUT`
abbrev pub last_activity_timeout : ℕ
last_activity_timeout = 60

-- What the loop leaves: whether it has ended, the restart signal, and the messages sent.
pub record Listened : Type 0 where
  pub ended : Bool
  pub restart_signal : Bool
  pub sent : List RemoteEvent

abbrev pub first_sent : List RemoteEvent → Listened → Listened
first_sent messages l = record l { sent = messages ++ l.sent }

abbrev stopped : Bool → Listened
stopped restart = record { ended = true; restart_signal = restart; sent = [] }

module _ (J : Json) (ignore : Ignore) (workspace_id : ℕ) (selected : Outcome SqlError (List Row))
    (from_str : Text → Option (TracimLiveEvent J)) (from_utf8 : Text → Option Text) where
  -- An error of a chunk is only logged.
  abbrev messages_in : Heard → List RemoteEvent
  messages_in (lines_heard bytes) =
      (proceed_event_lines J ignore workspace_id selected from_str from_utf8 bytes).1
  messages_in unreadable = []
  messages_in (silence seconds) = []

  abbrev too_silent : Heard → Bool
  too_silent (silence seconds) = ltb last_activity_timeout seconds
  too_silent (lines_heard bytes) = false
  too_silent unreadable = false

  -- `listen`, where the client and the stream could be had
  unfoldable pub listen : List Turn → Listened
  unfolding proceed_event_lines
  listen [] = record { ended = false; restart_signal = false; sent = [] }
  listen (turn ∷ rest) =
      let later = listen rest in
      if too_silent turn.heard
      then stopped true
      else first_sent (messages_in turn.heard)
          (if turn.stop_requested then stopped false else later)
