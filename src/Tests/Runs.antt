-- ===== src/Tests/Runs.antt =====
-- The runner around the synchronization: rounds, restarts, confirmation and activities.
use trsync.Base.{
  Outcome, ◌⊎◌, ◌≡◌, refl, Bool, true, false, not, ◌&&◌, none, some, List, [], ◌∷◌, contains, ok,
  err, ◌==◌, nat_eq, list_eq, string_eq, if◌then◌else◌, arith,
}
use trsync.Base.Lines.{Text}
use trsync.Core.Change.Remote.{RemoteChange}
use trsync.Core.Error.{executor_error, missing_parent}
use trsync.Event.{Event, RemoteEvent, event_eq}
use trsync.Runner.{Interface, RunnerError, sync_, idle, job, unexpected}
use trsync.Runner.Worked.{logged}
use trsync.Runner.Worked.Startup.{from_server, Refused, AllOperated, sync_-operated}
use trsync.Ignore.{
  Ignore, try_from, read, read_lines, to_string, push, empty, overwrite, write, not_found,
  read_to_string, of_content,
}
use trsync.Base.Lines.{lines, codes}
use trsync.Runner.Start.{Preparation}
use trsync.Runner.Start.Total.{Bounded}
use trsync.Runner.Process as Process
use trsync.Runner.Process.{
  Process, ignore_and_restart_space_sync, continue, attempt, on_error, decided, check_stop,
}
use trsync.Runner.Process.Stopped.{run-connection}
use trsync.Runner.Process.Ignoring.{KeepsFile, attempt-ignoring}
use trsync.Core.Job.{JobIdentifier}
use trsync.Runner.Monitor.{Message, activity, timeout}

-- A folder and a file in it, which comes first.
abbrev folder_change : RemoteChange
folder_change = RemoteChange.new 1 ("Folder" ∷ [])

abbrev file_change : RemoteChange
file_change = RemoteChange.new 2 ("Folder" ∷ "a.txt" ∷ [])

abbrev file_event : Event
file_event = Event.remote (RemoteEvent.created 2)

abbrev folder_event : Event
folder_event = Event.remote (RemoteEvent.created 1)

-- An operator that keeps the events it has operated.
abbrev operator : Interface
operator = record {
  Operator = List Event;
  operate = λ e o.
      if e == file_event && not (contains o folder_event)
      then (err (executor_error (missing_parent 2 1)), o)
      else (ok tt, e ∷ o);
  send = λ a o. (true, o);
  deal = λ r l o. (ok true, o);
}

abbrev incoming : List RemoteChange
incoming = file_change ∷ folder_change ∷ []

sync_-operated_example :
    (r : Outcome RunnerError (Unit {0})) × (o : List Event) × (log : List Event) × (sync_ operator 3
        incoming [] []
      ≡ some (r, o))
    × (sync_ (logged operator) 3 incoming [] ([], []) ≡ some (r, (o, log)))
    × (((e : RunnerError) × (r ≡ err e))
        ⊎ (Refused operator (from_server incoming []) [] [] × (log ≡ []))
        ⊎ AllOperated operator log (from_server incoming []) [])
sync_-operated_example = sync_-operated operator 3 incoming [] [] (omega arith) (omega arith)

abbrev preparation : Preparation operator
preparation = record {
  exit_after_sync = true;
  prepare = λ o. (ok tt, o);
  remote_changes = λ o. (ok incoming, o);
  local_changes = λ o. (ok [], o);
  client = λ o. (ok tt, o);
}

bounded : Bounded operator preparation 3
bounded = record {
  few_remote = λ o changes e. ground arith;
  few_local = λ o changes e. ground arith;
}

-- A process whose world is the ignore file, which is not there offline, and whose runs all fail.
abbrev process : Bool → Process
process offline = record {
  World = Text;
  exit_after_sync = false;
  has_error_channels = true;
  read_ignore = λ w. if offline then err not_found else ok w;
  open_ignore = λ w. ok w;
  save_ignore = λ t w. t;
  run_runner = λ ignore w. (err unexpected, w);
  is_connection = λ e. offline;
  set_activity = λ a w. (true, w);
  report = λ e w. w;
  decision = λ w. (some (ignore_and_restart_space_sync 5), w);
  is_stop_requested = λ w. offline;
  clear_stop = λ w. w;
}

readable : (w : Text) → (ignore : Ignore) × (try_from ((process true).read_ignore w) ≡ ok ignore)
unfolding try_from read_to_string of_content
readable w = (read [], refl)

run-connection_example : Process.run (process true) 4 [] ≡ none
run-connection_example =
    run-connection (process true) readable (λ ignore w. (unexpected, refl, refl)) 4 []

process-KeepsFile : KeepsFile (process false)
process-KeepsFile = record {
  read-save = λ t w. refl;
  open_ignore-read = λ t w h. h;
  read-run_runner = λ ignore w. refl;
  read-set_activity = λ a w. refl;
  read-report = λ e w. refl;
  read-decision = λ w. refl;
}

abbrev next_file : Text
next_file = overwrite (to_string (push 5 empty)) []

empty_file : (process false).read_ignore [] ≡ ok (to_string empty)
unfolding to_string empty
empty_file = refl

goes_on : attempt (process false) [] ≡ continue next_file
unfolding attempt on_error decided check_stop try_from read lines read_lines write push empty
goes_on = refl

attempt-ignoring_example : try_from (ok next_file) ≡ ok (push 5 empty)
attempt-ignoring_example =
    attempt-ignoring (process false) process-KeepsFile empty 5 unexpected [] [] next_file
      (unfold empty in tt) (omega arith) empty_file refl refl refl goes_on

abbrev first_job : JobIdentifier
first_job = record {
  instance_name = codes "tracim";
  workspace_id = 1;
  workspace_name = codes "Drafts";
}

abbrev messages : List Message
messages = activity first_job (job folder_event) ∷ timeout false ∷ activity first_job idle ∷ []
