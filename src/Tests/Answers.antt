-- ===== src/Tests/Answers.antt =====
-- The window of the answers and the errors.
use trsync.Base.{Bool, ◌⊎◌, ◌≡◌, refl, true, false, none, some, [], ◌∷◌}
use trsync.Base.HashMap.{lookup}
use trsync.Base.Lines.{codes}
use trsync.Core.Job.{JobIdentifier, job_eq}
use trsync.Core.Error.{path_already_exist, state_error}
use trsync.Runner.{RunnerError, operator_error}
use trsync.Monitor.{
  Changes, SyncExchanger, ErrorChannels, ErrorExchanger, startup_synchronizations, errors, App, new,
  Frame, update, with_defaults,
}
use trsync.Monitor.Answers.{
  System, after_frame, set_changes, receive_decision, Reach, here, next, asks, draws, last_for,
}
use trsync.Monitor.Answers.Shown.{receive_decision-shown}
use trsync.Monitor.Answers.Possible.{answers, answer_possible}
use trsync.Monitor.Answers.Stale.{receive_decision-stale}
use trsync.Core.Change.Remote.{RemoteChange}
use trsync.Monitor.Icon.{calls}
use trsync.Monitor.Unseen.{report, update-report_unseen}

abbrev drafts : JobIdentifier
drafts = record {
  instance_name = codes "tracim";
  workspace_id = 1;
  workspace_name = codes "Drafts";
}

abbrev nothing : Changes
nothing = ([], [])

abbrev quiet : Frame
quiet = record {
  panel = none;
  sync_space = none;
  error_space = none;
  refuse = false;
  accept = false;
  ignore_and_restart = false;
  restart = false;
}

abbrev accepts : Frame
accepts = record quiet { accept = true }

abbrev opened : System
opened = record {
  app = new startup_synchronizations;
  syncs = (drafts, record { changes = none; answers = [] }) ∷ [];
  asked = none;
  given = [];
  failed = false;
}

abbrev asking : System
asking = record opened {
  asked = some nothing;
  syncs = set_changes drafts (some nothing) opened.syncs;
}

abbrev answered : System
answered = after_frame (update accepts asking.app asking.syncs []) asking

abbrev taken : SyncExchanger
taken = (drafts, record { changes = none; answers = [] }) ∷ []

waits : lookup drafts answered.syncs ≡ some (record { changes = none; answers = true ∷ [] })
unfolding update set_changes with_defaults new job_eq
waits = refl

receives_answer : receive_decision drafts answered.syncs ≡ (some true, taken)
unfolding update set_changes with_defaults receive_decision new job_eq
receives_answer = refl

fresh : lookup drafts opened.syncs ≡ some (record { changes = none; answers = [] })
unfolding job_eq
fresh = refl

waiting : answered.asked ≡ some nothing
waiting = refl

receive_decision-shown_example : last_for drafts answered.given ≡ some (nothing, true)
receive_decision-shown_example =
    receive_decision-shown drafts opened answered nothing true taken fresh refl
      (next {t = asking} (next {t = opened} here (asks nothing refl refl)) (draws accepts [] refl))
      refl waiting receives_answer

abbrev a_change : Changes
a_change = (RemoteChange.new 2 [] ∷ [], [])

receive_decision-stale_example :
    (s : System) × (syncs : SyncExchanger) × Reach drafts opened s
    × (s.asked ≡ some a_change)
    × (receive_decision drafts s.syncs ≡ (some true, syncs))
    × (last_for drafts s.given ≡ some (nothing, true))
receive_decision-stale_example =
    receive_decision-stale drafts opened nothing a_change true [] fresh refl

answer_possible_example :
    (before : Bool) × (syncs : SyncExchanger) × ((receive_decision drafts asking.syncs
        ≡ (some before, syncs))
      ⊎ ((receive_decision drafts (update (answers drafts false) asking.app asking.syncs []).syncs
            ≡ (some before, syncs))
          × (before ≡ false)))
answer_possible_example =
    answer_possible drafts opened asking nothing false [] fresh refl
      (next {t = opened} here (asks nothing refl refl)) refl

abbrev already_there : RunnerError
already_there = operator_error (state_error (path_already_exist [] 7))

abbrev failed : ErrorChannels
failed = record { error = some already_there; seen = false; decisions = [] }

abbrev failures : ErrorExchanger
failures = (drafts, failed) ∷ []

abbrev shown : App
shown = record {
  current_panel = errors;
  current_sync_space = none;
  current_error_space = some drafts;
}

-- Before the window is drawn, the error calls for the user.
called : calls failed ≡ true
called = refl

failed_there : lookup drafts failures ≡ some failed
unfolding job_eq
failed_there = refl

abbrev restarts : Frame
restarts = record quiet { restart = true }

update-report_unseen_example :
    (later : ErrorChannels) × (lookup drafts
        (report drafts already_there (update restarts shown [] failures).errors_)
      ≡ some later)
    × (later.error ≡ some already_there)
    × (calls later ≡ false)
update-report_unseen_example =
    update-report_unseen drafts restarts shown [] failures failed already_there refl refl
      failed_there
