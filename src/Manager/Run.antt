-- ===== src/Manager/Run.antt =====
-- manager/src/daemon.rs: `Daemon::run`, the loop over the messages of the user interface.
pub mod Reload
use trsync.Base.{
  ℕ, zero, suc, Bool, true, false, Option, none, some, List, [], ◌∷◌, length, Outcome, ok, err,
  ◌==◌, nat_eq, if◌then◌else◌,
}
use trsync.Core.Config.{ManagerConfig}
use trsync.Manager.{Error, channel_error, Stop, Folders, Daemon, ensure_processes}
use trsync.Manager.Client.{Web}

-- manager/src/message.rs
pub data DaemonMessage : Type 0 where
  reload : ManagerConfig → DaemonMessage
  stop : DaemonMessage

-- The daemon, the attempts made and the pauses between them.
pub record Running : Type 0 where
  pub daemon : Daemon
  pub attempts : ℕ
  pub pauses : ℕ

-- The answers of the server at each attempt. Where the outcome is an error, the daemon has panicked.
module _ (web : ℕ → Web) (F : Folders) where
  abbrev after_attempt : Daemon → Bool → Running → Running
  after_attempt d paused r = record {
    daemon = d;
    attempts = suc r.attempts;
    pauses = if paused then suc r.pauses else r.pauses;
  }

  -- The `while` loops around `ensure_processes`, with the messages that wait: where there is one, the loop
  -- goes on without a pause. `none` only when the fuel is spent.
  unfoldable pub ensure : ℕ → List DaemonMessage → Running → Option (Outcome Stop Running)
  unfolding ensure_processes
  ensure zero waiting r = none
  ensure (suc fuel) waiting r = elim (ensure_processes (web r.attempts) F r.daemon) [
    | err panicked ↦ some (err panicked)
    | ok (ok _, d) ↦ some (ok (after_attempt d false r))
    | ok (err e, d) ↦ ensure fuel waiting (after_attempt d (length waiting == 0) r)
  ]

  abbrev reloaded : ManagerConfig → Running → Running
  reloaded config r = record r { daemon = record r.daemon { config = config } }

  abbrev pub Ran : Type 0
  Ran = Option (Outcome Stop (Outcome Error (Unit {0}) × Running))

  abbrev pub ensured : (Running → Ran) → Option (Outcome Stop Running) → Ran
  ensured next none = none
  ensured next (some (err panicked)) = some (err panicked)
  ensured next (some (ok r)) = next r

  -- The `loop` over the messages; the channel is closed after the last one.
  unfoldable pub proceed : ℕ → List DaemonMessage → Running → Ran
  unfolding ensure
  proceed fuel [] r = some (ok (err channel_error, r))
  proceed fuel (stop ∷ rest) r = some (ok (ok tt, r))
  proceed fuel (reload config ∷ rest) r =
      ensured (proceed fuel rest) (ensure fuel rest (reloaded config r))

  -- `Daemon::run`; no message is looked at before the first start.
  unfoldable pub run : ℕ → List DaemonMessage → Running → Ran
  unfolding ensure proceed
  run fuel messages r = ensured (proceed fuel messages) (ensure fuel [] r)
