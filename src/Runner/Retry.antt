-- ===== src/Runner/Retry.antt =====
-- trsync/src/run2.rs: the rounds of `OperateChanges::operate`, and what ends the runner's loop.
use trsync.Base.{
  ℕ, zero, suc, length, ◌≤◌, ◌<◌, Bool, true, false, Bool-cases, Outcome-cases, inl, inr, ◌≡◌, ◌≢◌,
  refl, none, some, List, [], ◌∷◌, ◌++◌, ok, ◌==◌, nat_eq, arith,
}
use trsync.Core.Change.{Change}
use trsync.Core.Error.{missing_parent, executor_error}
use trsync.Event.{from_change}
use trsync.Runner.{
  Interface, round, operate_changes, startup_sync, Received, timeout, disconnected, event, Turn,
  Ran, turn_of, operate_loop, sync_, confirmed, apply, waiting_startup_sync_confirmation,
}
use trsync.Core.Change.Local.{LocalChange}
use trsync.Core.Change.Remote.{RemoteChange}
use trsync.Sync.{force_local, resolve}

module _ (I : Interface) where
  round-shorter :
      (changes : List Change) (o : I.Operator) (remaining : List Change) (o' : I.Operator)
      → round I changes o ≡ (ok remaining, o')
      → length remaining ≤ length changes
  unfolding round
  round-shorter [] o remaining o' p = ground arith
  round-shorter (change ∷ rest) o remaining o' p =
      let o1 = (I.send (startup_sync (some change)) o).1 in
      let o2 = (I.operate (from_change change) o1).1 in
      let o3 = (I.send (startup_sync none) o2).1 in
      elim (Bool-cases (I.send (startup_sync (some change)) o).0) [
        | inr a ↦ absurd (ground arith)
        | inl a ↦ elim (Bool-cases (I.send (startup_sync none) o2).0) [
          | inl b ↦ elim (Outcome-cases (I.operate (from_change change) o1).0) [
            | inr (_, r) ↦ ground (arith, round-shorter rest o3 remaining o' (ground arith))
            | inl (executor_error (missing_parent _ _), r) ↦
                elim (Outcome-cases (round I rest o3).0) [
                  | inl (f, t) ↦ absurd (ground arith)
                  | inr (later, t) ↦
                      ground (arith, round-shorter rest o3 later (round I rest o3).1 (ground arith))
                ]
            | inl (_, r) ↦ absurd (ground arith)
          ]
          | inr b ↦ elim (Outcome-cases (I.operate (from_change change) o1).0) [
            | inr (_, r) ↦ absurd (ground arith)
            | inl (executor_error (missing_parent _ _), r) ↦ absurd (ground arith)
            | inl (_, r) ↦ absurd (ground arith)
          ]
        ]
      ]

  -- With more fuel than there are changes, the loop ends.
  pub operate_changes_total :
      (fuel : ℕ) (changes : List Change) (o : I.Operator)
      → length changes < fuel
      → operate_changes I fuel changes o ≢ none
  unfolding operate_changes
  operate_changes_total zero changes o p e = ground arith
  operate_changes_total (suc fuel) changes o p e = elim (Outcome-cases (round I changes o).0) [
    | inl (f, q) ↦ ground arith
    | inr (remaining, q) ↦ elim (nat_eq.dec (length remaining) 0) [
      | yes z ↦ ground arith
      | no n ↦ elim (nat_eq.dec (length remaining) (length changes)) [
        | yes s ↦ ground arith
        | no m ↦
            operate_changes_total fuel remaining (round I changes o).1
              (ground
                (arith, round-shorter changes o remaining (round I changes o).1 (ground arith)))
              (ground arith)
      ]
    ]
  ]

  -- A turn that reads a signal is the last one, and its event is not operated: the runner's result does not
  -- depend on what comes after it, nor on what it received.
  pub operate_loop-signal :
      (before after : List Turn) (received : Received) (restart : Bool) (o : I.Operator)
      → operate_loop I
          (before
            ++ (record { received = received; stop_requested = true; restart_requested = restart }
                ∷ after))
          o
        ≡ operate_loop I
            (before
              ++ (record { received = timeout; stop_requested = true; restart_requested = restart }
                  ∷ []))
            o
  unfolding operate_loop
  operate_loop-signal [] after timeout restart o = refl
  operate_loop-signal [] after disconnected restart o = refl
  operate_loop-signal [] after (event e) restart o = refl
  operate_loop-signal (turn ∷ before) after received restart o =
      λ i. turn_of I turn (λ o'. operate_loop-signal before after received restart o' i) o

  confirmed-refused :
      (remote_changes : List RemoteChange) (change : LocalChange) (local_changes : List LocalChange)
      (next : I.Operator → Ran I) (o o1 o2 : I.Operator)
      → I.send waiting_startup_sync_confirmation o ≡ (true, o1)
      → I.deal remote_changes (change ∷ local_changes) o1 ≡ (ok false, o2)
      → confirmed I remote_changes (change ∷ local_changes) next o ≡ some (ok tt, o2)
  unfolding confirmed nat_eq
  confirmed-refused remote_changes change local_changes next o o1 o2 q r =
      elim (Bool-cases (length remote_changes == 0)) [ inl e ↦ ground arith | inr e ↦ ground arith ]

  -- Where there is a local change and the user refuses, the synchronization succeeds and operates nothing.
  pub sync_-refused :
      (fuel : ℕ) (remote_changes kept : List RemoteChange) (change : LocalChange)
      (local_changes : List LocalChange) (o o1 o2 : I.Operator)
      → resolve (record {
        remote_changes = remote_changes;
        local_changes = change ∷ local_changes;
        method = force_local;
      })
        ≡ ok (kept, change ∷ local_changes)
      → I.send waiting_startup_sync_confirmation o ≡ (true, o1)
      → I.deal kept (change ∷ local_changes) o1 ≡ (ok false, o2)
      → sync_ I fuel remote_changes (change ∷ local_changes) o ≡ some (ok tt, o2)
  unfolding sync_
  sync_-refused fuel remote_changes kept change local_changes o o1 o2 p q r =
      rw (sync_, p)
        (confirmed-refused kept change local_changes (apply I fuel kept (change ∷ local_changes)) o
          o1 o2 q r)
