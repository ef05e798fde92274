-- ===== src/Monitor.antt =====
-- monitor/src/app.rs: the window in which the user answers the startup synchronizations and the errors of the jobs,
-- with the channels of core/src/sync.rs and core/src/error.rs. What is drawn is left out, and so is the blinking.
pub mod Answers
pub mod Icon
pub mod Unseen
use trsync.Base.{
  Bool, true, false, not, contains, Option, none, some, List, [], ◌∷◌, ◌++◌, filter, ◌==◌,
  if◌then◌else◌,
}
use trsync.Base.HashMap.{HashMap, keys, lookup, insert}
use trsync.Core.Change.Local.{LocalChange}
use trsync.Core.Change.Remote.{RemoteChange}
use trsync.Core.Error.{path_already_exist, state_error}
use trsync.Core.Job.{JobIdentifier, job_eq}
use trsync.Core.Types.{ContentId}
use trsync.Runner.{RunnerError, operator_error}
use trsync.Runner.Process.{Decision, restart_space_sync, ignore_and_restart_space_sync}

abbrev pub Changes : Type 0
Changes = List RemoteChange × List LocalChange

-- `SyncChannels`, with the answers that wait in the channel, the first one first
pub record SyncChannels : Type 0 where
  pub changes : Option Changes
  pub answers : List Bool

abbrev pub SyncExchanger : Type 0
SyncExchanger = HashMap JobIdentifier SyncChannels

-- `ErrorChannels`, with the decisions that wait
pub record ErrorChannels : Type 0 where
  pub error : Option RunnerError
  pub seen : Bool
  pub decisions : List Decision

abbrev pub ErrorExchanger : Type 0
ErrorExchanger = HashMap JobIdentifier ErrorChannels

pub data Panel : Type 0 where
  root startup_synchronizations errors : Panel

pub record App : Type 0 where
  pub current_panel : Panel
  pub current_sync_space : Option JobIdentifier
  pub current_error_space : Option JobIdentifier

unfoldable pub new : Panel → App
new panel = record { current_panel = panel; current_sync_space = none; current_error_space = none }

-- What the user does while a frame is drawn: the panel and the spaces that are chosen, and the buttons.
pub record Frame : Type 0 where
  pub panel : Option Panel
  pub sync_space : Option JobIdentifier
  pub error_space : Option JobIdentifier
  pub refuse : Bool
  pub accept : Bool
  pub ignore_and_restart : Bool
  pub restart : Bool

abbrev has_changes : JobIdentifier × SyncChannels → Bool
has_changes (_, channels) = elim channels.changes [ none ↦ false | some _ ↦ true ]

abbrev has_error : JobIdentifier × ErrorChannels → Bool
has_error (_, channels) = elim channels.error [ none ↦ false | some _ ↦ true ]

unfoldable pub waiting_spaces : SyncExchanger → List JobIdentifier
waiting_spaces channels = keys (filter has_changes channels)

unfoldable pub error_spaces : ErrorExchanger → List JobIdentifier
error_spaces channels = keys (filter has_error channels)

abbrev first_of : List JobIdentifier → Option JobIdentifier
first_of [] = none
first_of (space ∷ rest) = some space

-- `update_synchronizations_combo_box_default_value` and `update_error_combo_box_default_value`
unfoldable pub or_first : Option JobIdentifier → List JobIdentifier → Option JobIdentifier
or_first (some space) spaces = some space
or_first none spaces = first_of spaces

-- `update_error_space_seen`
unfoldable pub update_error_space_seen : App → ErrorExchanger → ErrorExchanger
unfolding insert
update_error_space_seen a channels = elim a.current_panel [
  | root ↦ channels
  | startup_synchronizations ↦ channels
  | errors ↦ elim a.current_error_space [
    | none ↦ channels
    | some space ↦ elim (lookup space channels) [
      | none ↦ channels
      | some found ↦ insert space (record found { seen = true }) channels
    ]
  ]
]

-- A combo box: only a space that is listed can be chosen.
abbrev pub chosen :
    Option JobIdentifier → List JobIdentifier → Option JobIdentifier → Option JobIdentifier
chosen none spaces current = current
chosen (some space) spaces current = if contains spaces space then some space else current

-- The answer that is given, with the changes that the window shows.
abbrev pub Answer : Type 0
Answer = JobIdentifier × Changes × Bool

abbrev pub answer_of : Frame → Option Bool
answer_of f = if f.refuse then some false else if f.accept then some true else none

abbrev pub Displayed : Type 0
Displayed = App × SyncExchanger × Option Answer

-- The two buttons are there only where there are changes; after a click on the first there are none.
abbrev pub answered :
    App → SyncExchanger → JobIdentifier → SyncChannels → Option Changes → Option Bool → Displayed
answered a channels space found none b = (a, channels, none)
answered a channels space found (some changes) none = (a, channels, none)
answered a channels space found (some changes) (some b) = (
  record a { current_sync_space = none },
  insert space (record { changes = none; answers = found.answers ++ (b ∷ []) }) channels,
  some (space, changes, b),
)

-- `synchronizations_display`; a channel whose receiver is in the exchanger is never closed.
unfoldable pub synchronizations_display : Frame → App → SyncExchanger → Displayed
unfolding insert
synchronizations_display f a channels = elim a.current_sync_space [
  | none ↦ (a, channels, none)
  | some space ↦ elim (lookup space channels) [
    | none ↦ (a, channels, none)
    | some found ↦ answered a channels space found found.changes (answer_of f)
  ]
]

abbrev pub ignored_id : RunnerError → Option ContentId
ignored_id (operator_error (state_error (path_already_exist path content_id))) = some content_id
ignored_id _ = none

abbrev pub decisions_of : Frame → Option ContentId → List Decision
decisions_of f none = if f.restart then restart_space_sync ∷ [] else []
decisions_of f (some content_id) =
    (if f.ignore_and_restart then ignore_and_restart_space_sync content_id ∷ [] else [])
    ++ (if f.restart then restart_space_sync ∷ [] else [])

abbrev pub decided :
    App → ErrorExchanger → JobIdentifier → ErrorChannels → List Decision → App × ErrorExchanger
decided a channels space found [] = (a, channels)
decided a channels space found (d ∷ ds) = (
  record a { current_error_space = none },
  insert space (record found { error = none; decisions = found.decisions ++ (d ∷ ds) }) channels,
)

-- `errors_display`
unfoldable pub errors_display : Frame → App → ErrorExchanger → App × ErrorExchanger
unfolding insert
errors_display f a channels = elim a.current_error_space [
  | none ↦ (a, channels)
  | some space ↦ elim (lookup space channels) [
    | none ↦ (a, channels)
    | some found ↦ elim found.error [
      | none ↦ (a, channels)
      | some error ↦ decided a channels space found (decisions_of f (ignored_id error))
    ]
  ]
]

-- The window with what it shares with the jobs, and the answer that the frame gives.
pub record Shared : Type 0 where
  pub app : App
  pub syncs : SyncExchanger
  pub errors_ : ErrorExchanger
  pub given : Option Answer

unfoldable pub with_defaults : App → SyncExchanger → ErrorExchanger → App
unfolding or_first waiting_spaces error_spaces
with_defaults a syncs errors_ = record a {
  current_sync_space = or_first a.current_sync_space (waiting_spaces syncs);
  current_error_space = or_first a.current_error_space (error_spaces errors_);
}

abbrev pub panel_of : Option Panel → Panel → Panel
panel_of none current = current
panel_of (some p) current = p

-- `body`, by the panel
unfoldable pub body : Frame → Panel → App → SyncExchanger → ErrorExchanger → Shared
unfolding synchronizations_display errors_display waiting_spaces error_spaces
body f root a syncs errors_ = record { app = a; syncs = syncs; errors_ = errors_; given = none }
body f startup_synchronizations a syncs errors_ =
    let (a', syncs', given) =
      synchronizations_display f
        (record a {
          current_sync_space = chosen f.sync_space (waiting_spaces syncs) a.current_sync_space;
        })
        syncs in
    record { app = a'; syncs = syncs'; errors_ = errors_; given = given }
body f errors a syncs errors_ =
    let (a', errors') =
      errors_display f
        (record a {
          current_error_space = chosen f.error_space (error_spaces errors_) a.current_error_space;
        })
        errors_ in
    record { app = a'; syncs = syncs; errors_ = errors'; given = none }

-- `App::update`
unfoldable pub update : Frame → App → SyncExchanger → ErrorExchanger → Shared
unfolding body update_error_space_seen with_defaults
update f a syncs errors_ =
    let a1 = with_defaults a syncs errors_ in
    let seen = update_error_space_seen a1 errors_ in
    let a2 = record a1 { current_panel = panel_of f.panel a1.current_panel } in
    body f a2.current_panel a2 syncs seen
