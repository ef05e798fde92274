-- ===== src/Local/Watcher/Listen.antt =====
-- trsync/src/local/watcher.rs: `LocalWatcher::listen`, over what the library notify reports.
use trsync.Base.{Bool, true, false, ◌||◌, List, [], ◌∷◌, ◌++◌, Outcome, ok, err, if◌then◌else◌}
use trsync.Core.Types.{FilePath}
use trsync.Core.Content.{Anyhow}
use trsync.Event.{DiskEvent}
use trsync.Local.Watcher.{DebouncedEvent, digest_event}

-- A turn of the loop: what is received within 250 ms, with the file system at that moment, or the time-out with
-- the signals that are read then.
pub data Turn : Type 0 where
  received : (FilePath → Bool) → DebouncedEvent → Turn
  timeout : (stop_requested restart_requested : Bool) → Turn
  disconnected : Turn

-- Whether the loop has ended, and the messages sent; an event that cannot be digested is only logged.
abbrev pub Listened : Type 0
Listened = Bool × List DiskEvent

abbrev sent_first : Outcome Anyhow (List DiskEvent) → Listened → Listened
sent_first (err e) later = later
sent_first (ok messages) (ended, later) = (ended, messages ++ later)

-- `listen`
unfoldable pub listen : FilePath → List Turn → Listened
unfolding digest_event
listen workspace [] = (false, [])
listen workspace (received is_dir event ∷ rest) =
    sent_first (digest_event is_dir event workspace) (listen workspace rest)
listen workspace (timeout stop_requested restart_requested ∷ rest) =
    let later = listen workspace rest in
    if stop_requested || restart_requested then (true, []) else later
listen workspace (disconnected ∷ rest) = (true, [])
