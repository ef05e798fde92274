-- ===== src/Runner.antt =====
-- trsync/src/run2.rs: the startup synchronization and the loop of operations. What an event does is
-- the operator's; a channel's answer and the signals are parameters.
pub mod Retry
pub mod Worked
pub mod Process
pub mod Start
pub mod Politic
pub mod Monitor
pub mod Context
use trsync.Base.{
  ℕ, zero, suc, length, Bool, true, false, not, ◌&&◌, ◌||◌, ◌==◌, nat_eq, Option, none, some, List,
  [], ◌∷◌, ◌++◌, map, Outcome, ok, err, if◌then◌else◌,
}
use trsync.Core.Change.{Change}
use trsync.Core.Change.Local.{LocalChange}
use trsync.Core.Change.Remote.{RemoteChange}
use trsync.Core.Error.{
  ExecutorError, missing_parent, OperatorError, executor_error, missing_parent_error,
  activity_error,
}
use trsync.Sync.{StartupSyncResolver, force_local, resolve}
use trsync.Event.{Event, from_change}

-- core/src/activity.rs, without the text of a job
pub data Activity : Type 0 where
  idle waiting_startup_sync_confirmation waiting_connection error : Activity
  job : Event → Activity
  startup_sync : Option Change → Activity

pub data RunnerError : Type 0 where
  operator_error : OperatorError → RunnerError
  sync_politic_error unexpected : RunnerError

-- What a turn of the loop of `operate` receives, and the signals that it reads.
pub data Received : Type 0 where
  timeout disconnected : Received
  event : Event → Received

pub record Turn : Type 0 where
  pub received : Received
  pub stop_requested : Bool
  pub restart_requested : Bool

-- What the runner uses of the operator, with the operator's state: `operate`, the channel of
-- activities, whose send fails where the receiver is gone, and the user's answer (`SyncPolitic::deal`).
pub record Interface : Type 1 where
  pub Operator : Type 0
  pub operate : Event → Operator → Outcome OperatorError (Unit {0}) × Operator
  pub send : Activity → Operator → Bool × Operator
  pub deal : List RemoteChange → List LocalChange → Operator → Outcome RunnerError Bool × Operator

module _ (I : Interface) where
  -- The result of a round: the changes that remain.
  abbrev pub Round : Type 0
  Round = Outcome OperatorError (List Change) × I.Operator

  abbrev keep : Change → Round → Round
  keep change (ok remaining, o) = (ok (change ∷ remaining), o)
  keep change (err e, o) = (err e, o)

  -- The `for` loop of `OperateChanges::operate` over the changes.
  unfoldable pub round : List Change → I.Operator → Round
  unfolding from_change
  round [] o = (ok [], o)
  round (change ∷ rest) o =
      let (sent, o1) = I.send (startup_sync (some change)) o in
      elim sent [
        | false ↦ (err activity_error, o1)
        | true ↦
            let (r, o2) = I.operate (from_change change) o1 in
            elim r [
              | err (executor_error (missing_parent _ _)) ↦
                  let (told, o3) = I.send (startup_sync none) o2 in
                  elim told [
                    | false ↦ (err activity_error, o3)
                    | true ↦ keep change (round rest o3)
                  ]
              | err e ↦ (err e, o2)
              | ok _ ↦
                  let (told, o3) = I.send (startup_sync none) o2 in
                  elim told [ false ↦ (err activity_error, o3) | true ↦ round rest o3 ]
            ]
      ]

  abbrev again :
      Bool
      → Bool
      → (Unit {0} → Option (Outcome OperatorError (Unit {0}) × I.Operator))
      → I.Operator
      → Option (Outcome OperatorError (Unit {0}) × I.Operator)
  again true _ next o = some (ok tt, o)
  again false true next o = some (err missing_parent_error, o)
  again false false next o = next tt

  -- The `loop` of `OperateChanges::operate`; `none` only when the fuel is spent.
  unfoldable pub operate_changes :
      ℕ → List Change → I.Operator → Option (Outcome OperatorError (Unit {0}) × I.Operator)
  unfolding round
  operate_changes zero changes o = none
  operate_changes (suc fuel) changes o =
      let (r, o') = round changes o in
      elim r [
        | err e ↦ some (err e, o')
        | ok remaining ↦
            again (length remaining == 0) (length remaining == length changes)
              (λ _. operate_changes fuel remaining o') o'
      ]

  abbrev pub Ran : Type 0
  Ran = Option (Outcome RunnerError (Unit {0}) × I.Operator)

  -- Local changes after those of the server.
  abbrev after_remote :
      (I.Operator → Option (Outcome OperatorError (Unit {0}) × I.Operator))
      → Option (Outcome OperatorError (Unit {0}) × I.Operator)
      → Option (Outcome OperatorError (Unit {0}) × I.Operator)
  after_remote next none = none
  after_remote next (some (err e, o)) = some (err e, o)
  after_remote next (some (ok _, o)) = next o

  abbrev to_runner : Option (Outcome OperatorError (Unit {0}) × I.Operator) → Ran
  to_runner none = none
  to_runner (some (err e, o)) = some (err (operator_error e), o)
  to_runner (some (ok _, o)) = some (ok tt, o)

  -- The end of `sync_`: the operations themselves.
  unfoldable pub apply : ℕ → List RemoteChange → List LocalChange → I.Operator → Ran
  unfolding operate_changes
  apply fuel remote_changes local_changes o = to_runner (
      after_remote (operate_changes fuel (map Change.local local_changes))
        (operate_changes fuel (map Change.remote remote_changes) o))

  abbrev on_answer : (I.Operator → Ran) → Outcome RunnerError Bool × I.Operator → Ran
  on_answer next (err e, o) = some (err e, o)
  on_answer next (ok false, o) = some (ok tt, o)
  on_answer next (ok true, o) =
      let (sent, o') = I.send idle o in
      elim sent [ false ↦ some (err unexpected, o') | true ↦ next o' ]

  -- The question to the user, asked where there is a change.
  unfoldable pub confirmed :
      List RemoteChange → List LocalChange → (I.Operator → Ran) → I.Operator → Ran
  confirmed remote_changes local_changes next o =
      if length remote_changes == 0 && length local_changes == 0
      then next o
      else (let (sent, o') = I.send waiting_startup_sync_confirmation o in
          elim sent [
            | false ↦ some (err unexpected, o')
            | true ↦ on_answer next (I.deal remote_changes local_changes o')
          ])

  -- `sync_`, after the changes of both sides have been read
  unfoldable pub sync_ : ℕ → List RemoteChange → List LocalChange → I.Operator → Ran
  unfolding confirmed apply
  sync_ fuel remote_changes local_changes o =
      elim (resolve (record {
        remote_changes = remote_changes;
        local_changes = local_changes;
        method = force_local;
      })) [
        | err e ↦ some (err unexpected, o)
        | ok (remote_kept, local_kept) ↦
            confirmed remote_kept local_kept (apply fuel remote_kept local_kept) o
      ]

  -- The body of the loop of `Runner::operate`; `next` goes on.
  unfoldable pub turn_of : Turn → (I.Operator → Ran) → I.Operator → Ran
  turn_of turn next o = elim turn.received [
    | disconnected ↦ some (ok tt, o)
    | timeout ↦ elim (turn.stop_requested || turn.restart_requested) [
      | true ↦ some (ok tt, o)
      | false ↦ next o
    ]
    | event e ↦ elim (turn.stop_requested || turn.restart_requested) [
      | true ↦ some (ok tt, o)
      | false ↦
          let (sent, o1) = I.send (job e) o in
          elim sent [
            | false ↦ some (err unexpected, o1)
            | true ↦
                let (r, o2) = I.operate e o1 in
                elim r [
                  | err f ↦ some (err (operator_error f), o2)
                  | ok _ ↦
                      let (told, o3) = I.send idle o2 in
                      elim told [ false ↦ some (err unexpected, o3) | true ↦ next o3 ]
                ]
          ]
    ]
  ]

  -- The loop, over the turns to come: `none` while it goes on after the last one.
  unfoldable pub operate_loop : List Turn → I.Operator → Ran
  unfolding turn_of
  operate_loop [] o = none
  operate_loop (turn ∷ rest) o = turn_of turn (operate_loop rest) o
