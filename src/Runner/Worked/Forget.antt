-- ===== src/Runner/Worked/Forget.antt =====
-- trsync/src/run2.rs: a run with the log of what has been operated is the run without it.
use trsync.Base.{
  ℕ, zero, suc, length, true, false, Bool-cases, Outcome-cases, Option, Option-cases, ◌&&◌, list_eq,
  string_eq, inl, inr, ◌≡◌, refl, none, some, List, [], ◌∷◌, ◌++◌, map, ok, err, ◌==◌, nat_eq,
  arith,
}
use trsync.Core.Change.{Change}
use trsync.Core.Change.Local.{LocalChange}
use trsync.Core.Change.Remote.{RemoteChange}
use trsync.Core.Error.{executor_error, missing_parent}
use trsync.Event.{Event, from_change}
use trsync.Runner.{
  Interface, round, operate_changes, startup_sync, waiting_startup_sync_confirmation, idle,
  confirmed, apply,
}
use trsync.Runner.Worked.{logged}

module _ (I : Interface) where
  -- The log changes nothing of what a run does.
  round-forget :
      (changes : List Change) (o : I.Operator) (log : List Event)
      → round I changes o
        ≡ ((round (logged I) changes (o, log)).0, (round (logged I) changes (o, log)).1.0)
  unfolding round
  round-forget [] o log = refl
  round-forget (change ∷ rest) o log =
      let e = from_change change in
      let o1 = (I.send (startup_sync (some change)) o).1 in
      let o2 = (I.operate e o1).1 in
      let o3 = (I.send (startup_sync none) o2).1 in
      elim (Bool-cases (I.send (startup_sync (some change)) o).0) [
        | inr a ↦ ground arith
        | inl a ↦ elim (Bool-cases (I.send (startup_sync none) o2).0) [
          | inl b ↦ elim (Outcome-cases (I.operate e o1).0) [
            | inr (_, r) ↦ ground (arith, round-forget rest o3 (log ++ (e ∷ [])))
            | inl (executor_error (missing_parent _ _), r) ↦
                elim (Outcome-cases (round (logged I) rest (o3, log)).0) [
                  | inl (f, t) ↦ ground (arith, round-forget rest o3 log)
                  | inr (later, t) ↦ ground (arith, round-forget rest o3 log)
                ]
            | inl (_, r) ↦ ground arith
          ]
          | inr b ↦ elim (Outcome-cases (I.operate e o1).0) [
            | inr (_, r) ↦ ground arith
            | inl (executor_error (missing_parent _ _), r) ↦ ground arith
            | inl (_, r) ↦ ground arith
          ]
        ]
      ]

  -- A result without the log.
  abbrev pub forget {ℓ} :
      {A : Type ℓ} → Option (A × (I.Operator × List Event)) → Option (A × I.Operator)
  forget none = none
  forget (some (r, (o, _))) = some (r, o)

  operate_changes-forget :
      (fuel : ℕ) (changes : List Change) (o : I.Operator) (log : List Event)
      → operate_changes I fuel changes o ≡ forget (operate_changes (logged I) fuel changes (o, log))
  unfolding operate_changes
  operate_changes-forget zero changes o log = refl
  operate_changes-forget (suc fuel) changes o log =
      let (o1, log1) = (round (logged I) changes (o, log)).1 in
      elim (Outcome-cases (round (logged I) changes (o, log)).0) [
        | inl (f, q) ↦ ground (arith, round-forget changes o log)
        | inr (remaining, q) ↦ elim (nat_eq.dec (length remaining) 0) [
          | yes z ↦ ground (arith, round-forget changes o log)
          | no n ↦ elim (nat_eq.dec (length remaining) (length changes)) [
            | yes s ↦ ground (arith, round-forget changes o log)
            | no m ↦
                ground
                  (arith, round-forget changes o log, operate_changes-forget fuel remaining o1 log1)
          ]
        ]
      ]

  apply-forget :
      (fuel : ℕ) (remote_changes : List RemoteChange) (local_changes : List LocalChange)
      (o : I.Operator) (log : List Event)
      → apply I fuel remote_changes local_changes o
        ≡ forget (apply (logged I) fuel remote_changes local_changes (o, log))
  unfolding apply
  apply-forget fuel remote_changes local_changes o log =
      elim (Option-cases
        (operate_changes (logged I) fuel (map Change.remote remote_changes) (o, log))) [
          | inl n ↦
              ground (arith, operate_changes-forget fuel (map Change.remote remote_changes) o log)
          | inr ((err e, (o1, log1)), q) ↦
              ground (arith, operate_changes-forget fuel (map Change.remote remote_changes) o log)
          | inr ((ok _, (o1, log1)), q) ↦
              elim (Option-cases
                (operate_changes (logged I) fuel (map Change.local local_changes) (o1, log1))) [
                  | inl n ↦ ground (
                    arith,
                    operate_changes-forget fuel (map Change.remote remote_changes) o log,
                    operate_changes-forget fuel (map Change.local local_changes) o1 log1,
                  )
                  | inr ((err e, (o2, log2)), r) ↦ ground (
                    arith,
                    operate_changes-forget fuel (map Change.remote remote_changes) o log,
                    operate_changes-forget fuel (map Change.local local_changes) o1 log1,
                  )
                  | inr ((ok _, (o2, log2)), r) ↦ ground (
                    arith,
                    operate_changes-forget fuel (map Change.remote remote_changes) o log,
                    operate_changes-forget fuel (map Change.local local_changes) o1 log1,
                  )
                ]
        ]

  pub confirmed-forget :
      (fuel : ℕ) (remote_changes : List RemoteChange) (local_changes : List LocalChange)
      (o : I.Operator) (log : List Event)
      → confirmed I remote_changes local_changes (apply I fuel remote_changes local_changes) o
        ≡ forget (
            confirmed
              (logged I)
              remote_changes
              local_changes
              (apply (logged I) fuel remote_changes local_changes)
              (o, log))
  unfolding confirmed
  confirmed-forget fuel remote_changes local_changes o log =
      let asked = (I.send waiting_startup_sync_confirmation o).1 in
      let answer = I.deal remote_changes local_changes asked in
      elim (Bool-cases (length remote_changes == 0 && length local_changes == 0)) [
        | inl h ↦ ground (arith, apply-forget fuel remote_changes local_changes o log)
        | inr h ↦ elim (Bool-cases (I.send waiting_startup_sync_confirmation o).0) [
          | inr n ↦ ground arith
          | inl y ↦ elim (Outcome-cases answer.0) [
            | inl (e, q) ↦ ground arith
            | inr (false, q) ↦ ground arith
            | inr (true, q) ↦ elim (Bool-cases (I.send idle answer.1).0) [
              | inr n ↦ ground arith
              | inl z ↦ ground (
                arith,
                apply-forget fuel remote_changes local_changes (I.send idle answer.1).1 log,
              )
            ]
          ]
        ]
      ]
