-- ===== src/Monitor/Answers.antt =====
-- core/src/sync.rs with monitor/src/app.rs: a job asks for confirmation while the window is drawn, frame by frame.
pub mod Effect
pub mod Shown
pub mod Possible
pub mod Stale
use trsync.Base.{
  Bool, true, false, ◌≡◌, ◌≢◌, ◌⊎◌, inl, inr, refl, sym, ap, ◌∙◌, Option, none, some, Option-cases,
  List, [], ◌∷◌, ◌++◌, arith, ◌==◌, if◌then◌else◌,
}
use trsync.Base.HashMap.{lookup, insert, lookup-insert}
use trsync.Core.Job.{JobIdentifier, job_eq}
use trsync.Runner.Politic.{Channels}
use trsync.Monitor.{
  Changes, SyncChannels, SyncExchanger, ErrorExchanger, Panel, root, startup_synchronizations,
  errors, App, new, Frame, Answer, answer_of, Displayed, answered, synchronizations_display, Shared,
  body, update,
}

-- The window, the channels, the changes that the job waits for an answer to, and the answers that the user has
-- given, the last one first; and whether a request for the window has failed.
pub record System : Type 0 where
  pub app : App
  pub syncs : SyncExchanger
  pub asked : Option Changes
  pub given : List Answer
  pub failed : Bool

abbrev pub noted : Option Answer → List Answer → List Answer
noted none given = given
noted (some a) given = a ∷ given

abbrev pub after_frame : Shared → System → System
after_frame r s = record s { app = r.app; syncs = r.syncs; given = noted r.given s.given }

module _ (j : JobIdentifier) where
  abbrev with_changes : Option Changes → Option SyncChannels → SyncExchanger → SyncExchanger
  with_changes c none syncs = syncs
  with_changes c (some channels) syncs = insert j (record channels { changes = c }) syncs

  abbrev pub taken : SyncChannels → List Bool → SyncExchanger → Option Bool × SyncExchanger
  taken channels [] syncs = (none, syncs)
  taken channels (b ∷ rest) syncs = (some b, insert j (record channels { answers = rest }) syncs)

  abbrev pub received : Option SyncChannels → SyncExchanger → Option Bool × SyncExchanger
  received none syncs = (none, syncs)
  received (some channels) syncs = taken channels channels.answers syncs

  unfoldable pub set_changes : Option Changes → SyncExchanger → SyncExchanger
  unfolding insert
  set_changes c syncs = with_changes c (lookup j syncs) syncs

  -- There is no decision as long as no answer waits.
  unfoldable pub receive_decision : SyncExchanger → Option Bool × SyncExchanger
  unfolding insert
  receive_decision syncs = received (lookup j syncs) syncs

  -- `deal` of the job's politic sets its changes. Where the request for the window fails, it ends with an error and
  -- the changes stay; otherwise it later receives a decision. In between and before there are frames of the
  -- window, which may be opened anew, and what other jobs do to their channels.
  pub data Step (s t : System) : Type 0 where
    asks :
        (c : Changes)
        → s.asked ≡ none
        → t ≡ record s { asked = some c; syncs = set_changes (some c) s.syncs }
        → Step s t
    fails :
        (c : Changes)
        → s.asked ≡ none
        → t ≡ record s { failed = true; syncs = set_changes (some c) s.syncs }
        → Step s t
    draws :
        (f : Frame) (e : ErrorExchanger) → t ≡ after_frame (update f s.app s.syncs e) s → Step s t
    opens : (panel : Panel) → t ≡ record s { app = new panel } → Step s t
    others :
        (syncs : SyncExchanger)
        → lookup j syncs ≡ lookup j s.syncs
        → t ≡ record s { syncs = syncs }
        → Step s t
    receives :
        (c : Changes) (b : Bool) (syncs : SyncExchanger)
        → s.asked ≡ some c
        → receive_decision s.syncs ≡ (some b, syncs)
        → t ≡ record s { asked = none; syncs = syncs }
        → Step s t

  pub data Reach (s : System) : System → Type 0 where
    here : Reach s s
    next : {t u : System} → Reach s t → Step t u → Reach s u

  -- The last answer that was given to the job.
  abbrev pub last_for : List Answer → Option (Changes × Bool)
  last_for [] = none
  last_for ((k, c, b) ∷ given) = if k == j then some (c, b) else last_for given
