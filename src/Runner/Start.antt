-- ===== src/Runner/Start.antt =====
-- trsync/src/run2.rs: `Runner::sync` and `Runner::run`, around the synchronization and the loop.
pub mod Total
use trsync.Base.{ℕ, Bool, true, false, Option, none, some, List, Outcome, ok, err, if◌then◌else◌}
use trsync.Core.Change.Local.{LocalChange}
use trsync.Core.Change.Remote.{RemoteChange}
use trsync.Runner.{
  Interface, Activity, idle, startup_sync, RunnerError, unexpected, Turn, Ran, sync_, operate_loop,
}

-- What a run prepares and reads: the folder, the tables, the state, the client and the watchers (`prepare`),
-- the changes of both sides, and the client of the loop.
pub record Preparation (I : Interface) : Type 0 where
  pub exit_after_sync : Bool
  pub prepare : I.Operator → Outcome RunnerError (Unit {0}) × I.Operator
  pub remote_changes : I.Operator → Outcome RunnerError (List RemoteChange) × I.Operator
  pub local_changes : I.Operator → Outcome RunnerError (List LocalChange) × I.Operator
  pub client : I.Operator → Outcome RunnerError (Unit {0}) × I.Operator

module _ (I : Interface) (S : Preparation I) where
  -- `?` after a call.
  abbrev after :
      {A : Type 0} → Outcome RunnerError A × I.Operator → (A → I.Operator → Ran I) → Ran I
  after (err e, o) next = some (err e, o)
  after (ok a, o) next = next a o

  -- `?` after a call that may not end.
  abbrev pub after_run : Ran I → (I.Operator → Ran I) → Ran I
  after_run none next = none
  after_run (some (err e, o)) next = some (err e, o)
  after_run (some (ok _, o)) next = next o

  -- `sync_`, with the reading of the changes
  unfoldable pub read_and_sync : ℕ → I.Operator → Ran I
  unfolding sync_
  read_and_sync fuel o = after (S.remote_changes o) λ remote_changes o1.
      after (S.local_changes o1) λ local_changes o2. sync_ I fuel remote_changes local_changes o2

  -- The activity at the end, whether the synchronization failed or not.
  abbrev then_idle : Ran I → Ran I
  then_idle none = none
  then_idle (some (r, o)) =
      let (sent, o') = I.send idle o in
      elim sent [ false ↦ some (err unexpected, o') | true ↦ some (r, o') ]

  -- `Runner::sync`
  unfoldable pub sync : ℕ → I.Operator → Ran I
  unfolding read_and_sync
  sync fuel o =
      let (sent, o') = I.send (startup_sync none) o in
      elim sent [ false ↦ some (err unexpected, o') | true ↦ then_idle (read_and_sync fuel o') ]

  -- `Runner::operate`, with the client that it creates
  unfoldable pub operate : List Turn → I.Operator → Ran I
  unfolding operate_loop
  operate turns o = after (S.client o) λ _ o'. operate_loop I turns o'

  -- `Runner::run`
  unfoldable pub run : ℕ → List Turn → I.Operator → Ran I
  unfolding sync operate
  run fuel turns o = after (S.prepare o) λ _ o1.
      after_run (sync fuel o1)
        λ o2. if S.exit_after_sync then some (ok tt, o2) else operate turns o2
