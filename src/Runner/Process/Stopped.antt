-- ===== src/Runner/Process/Stopped.antt =====
-- trsync/src/run2.rs: the stop signal in the loop of `run`.
use trsync.Base.{ℕ, zero, suc, true, none, ok, err, ◌≡◌, refl}
use trsync.Ignore.{Ignore, try_from}
use trsync.Runner.{RunnerError}
use trsync.Runner.Process.{Process, attempt, on_error, run}

module _ (P : Process) where
  -- While every attempt ends in a connection error the loop does not end, whatever the stop signal says:
  -- the signal is looked at after other attempts only.
  pub run-connection :
      ((w : P.World) → (ignore : Ignore) × (try_from (P.read_ignore w) ≡ ok ignore))
      → ((ignore : Ignore) (w : P.World)
          → (e : RunnerError) × ((P.run_runner ignore w).0 ≡ err e) × (P.is_connection e ≡ true))
      → (fuel : ℕ) (w : P.World) → run P fuel w ≡ none
  unfolding run attempt on_error
  run-connection readable offline zero w = refl
  run-connection readable offline (suc fuel) w =
      let (ignore, r) = readable w in
      let (e, f, c) = offline ignore w in
      rw (run, attempt, r, f, on_error, c)
        (run-connection readable offline fuel (P.run_runner ignore w).1)
