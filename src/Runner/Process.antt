-- ===== src/Runner/Process.antt =====
-- trsync/src/run2.rs: the function `run`, which starts the runner again after an error, as the user decides.
-- The runner and the channels are parameters.
pub mod Stopped
pub mod Ignoring
use trsync.Base.{
  ℕ, zero, suc, Bool, true, false, ◌||◌, Option, none, some, Outcome, ok, err, if◌then◌else◌,
}
use trsync.Base.Lines.{Text}
use trsync.Core.Types.{ContentId}
use trsync.Ignore.Utf8.{Bytes}
use trsync.Ignore.{Ignore, IoError, try_from, push, write}
use trsync.Runner.{Activity, idle, error, RunnerError, unexpected}

-- core/src/error.rs
pub data Decision : Type 0 where
  restart_space_sync : Decision
  ignore_and_restart_space_sync : ContentId → Decision

-- What `run` uses: the ignore file, a run of the runner, whether an error's message speaks of a connection,
-- the channels, of which `decision` gives nothing where it is closed, and the stop signal.
pub record Process : Type 1 where
  pub World : Type 0
  pub exit_after_sync : Bool
  pub has_error_channels : Bool
  pub read_ignore : World → Outcome IoError Bytes
  pub open_ignore : World → Outcome IoError Bytes
  pub save_ignore : Bytes → World → World
  pub run_runner : Ignore → World → Outcome RunnerError (Unit {0}) × World
  pub is_connection : RunnerError → Bool
  pub set_activity : Activity → World → Bool × World
  pub report : RunnerError → World → World
  pub decision : World → Option Decision × World
  pub is_stop_requested : World → Bool
  pub clear_stop : World → World

module _ (P : Process) where
  -- Whether the loop goes on after an attempt.
  pub data Flow : Type 0 where
    continue : P.World → Flow
    ended : Outcome RunnerError (Unit {0}) → P.World → Flow

  -- The end of the body.
  unfoldable pub check_stop : P.World → Flow
  check_stop w =
      if P.is_stop_requested w || P.exit_after_sync
      then ended (ok tt) (P.clear_stop w)
      else continue w

  -- A failing write is only logged.
  unfoldable pub decided : Ignore → Decision → P.World → P.World
  unfolding push write
  decided ignore restart_space_sync w = w
  decided ignore (ignore_and_restart_space_sync content_id) w =
      elim (write (push content_id ignore) (P.open_ignore w)) [
        | err _ ↦ w
        | ok content ↦ P.save_ignore content w
      ]

  -- `set_activity(..)?`
  abbrev telling : Activity → P.World → (P.World → Flow) → Flow
  telling activity w next =
      let (sent, w') = P.set_activity activity w in
      elim sent [ false ↦ ended (err unexpected) w' | true ↦ next w' ]

  abbrev on_decision : Ignore → Option Decision × P.World → Flow
  on_decision ignore (none, w) = ended (ok tt) w
  on_decision ignore (some d, w) = telling idle (decided ignore d w) check_stop

  -- The handling of an error.
  unfoldable pub on_error : Ignore → RunnerError → P.World → Flow
  unfolding check_stop decided
  on_error ignore e w =
      if P.is_connection e
      then continue w
      else if P.has_error_channels
      then telling error w (λ w'. on_decision ignore (P.decision (P.report e w')))
      else ended (err e) w

  -- The body of the loop.
  unfoldable pub attempt : P.World → Flow
  unfolding on_error check_stop try_from
  attempt w = elim (try_from (P.read_ignore w)) [
    | err _ ↦ ended (err unexpected) w
    | ok ignore ↦
        let (r, w') = P.run_runner ignore w in
        elim r [ err e ↦ on_error ignore e w' | ok _ ↦ check_stop w' ]
  ]

  -- The loop; `none` only when the fuel is spent.
  unfoldable pub run : ℕ → P.World → Option (Outcome RunnerError (Unit {0}) × P.World)
  unfolding attempt
  run zero w = none
  run (suc fuel) w = elim (attempt w) [ continue w' ↦ run fuel w' | ended r w' ↦ some (r, w') ]
