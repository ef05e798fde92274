-- ===== src/Runner/Monitor.antt =====
-- core/src/activity.rs: the activities of the jobs, as the icon of the task bar shows them.
pub mod Working
use trsync.Base.{Bool, true, false, ◌||◌, Option, none, some, List, [], ◌∷◌}
use trsync.Core.Job.{JobIdentifier, job_eq}
use trsync.Base.HashMap.{HashMap, values, insert}
use trsync.Runner.{
  Activity, idle, waiting_startup_sync_confirmation, waiting_connection, error, job, startup_sync,
}

unfoldable pub is_job : Activity → Bool
is_job (job _) = true
is_job idle = false
is_job waiting_startup_sync_confirmation = false
is_job waiting_connection = false
is_job error = false
is_job (startup_sync _) = false

unfoldable pub is_startup_sync : Activity → Bool
is_startup_sync (startup_sync _) = true
is_startup_sync idle = false
is_startup_sync waiting_startup_sync_confirmation = false
is_startup_sync waiting_connection = false
is_startup_sync error = false
is_startup_sync (job _) = false

-- `ActivityState`, without the startup synchronizations that are pending
abbrev pub ActivityState : Type 0
ActivityState = HashMap JobIdentifier Activity

unfoldable pub set_activity : JobIdentifier → Activity → ActivityState → ActivityState
unfolding insert
set_activity job_identifier activity state = insert job_identifier activity state

abbrev busy : List Activity → Bool
busy [] = false
busy (activity ∷ rest) = (is_job activity || is_startup_sync activity) || busy rest

unfoldable pub is_working : ActivityState → Bool
unfolding is_job is_startup_sync
is_working state = busy (values state)

-- What a turn of the loop of `ActivityMonitor::run` receives, with the stop signal.
pub data Message : Type 0 where
  activity : JobIdentifier → Activity → Message
  timeout : Bool → Message
  disconnected : Message

-- `ActivityMonitor::run`, over the messages to come; the number of turns left when it ends, if it does.
unfoldable pub run : List Message → ActivityState → Bool × ActivityState
unfolding set_activity
run [] state = (false, state)
run (activity j a ∷ rest) state = run rest (set_activity j a state)
run (timeout true ∷ rest) state = (true, state)
run (timeout false ∷ rest) state = run rest state
run (disconnected ∷ rest) state = (true, state)
