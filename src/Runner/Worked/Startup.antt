-- ===== src/Runner/Worked/Startup.antt =====
-- trsync/src/run2.rs: what the startup synchronization has operated when it succeeds.
use mathlib.Core.List.{append-nil, Perm}
use mathlib.Core.List.Perm
use trsync.Base.{
  ℕ, length, ◌<◌, true, false, Bool-cases, Outcome-cases, Option-cases, not, contains, filter, ◌&&◌,
  list_eq, string_eq, Outcome, inl, inr, ◌≡◌, ◌⊎◌, ◌∙◌, refl, sym, ap, some, List, [], ◌++◌, map,
  ok, err, ◌==◌, nat_eq, arith,
}
use trsync.Core.Change.{Change}
use trsync.Core.Change.Local.{LocalChange}
use trsync.Core.Change.Remote.{RemoteChange}
use trsync.Event.{Event, from_change}
use trsync.Sync.Resolved.{resolve-reference}
use trsync.Core.Change.Local as LocalPath
use trsync.Core.Change.Remote as RemotePath
use trsync.Runner.Start.Total.{sync__total}
use trsync.Runner.{
  Interface, RunnerError, operate_changes, waiting_startup_sync_confirmation, idle, sync_,
  confirmed, apply,
}
use trsync.Runner.Worked.{logged, Operated, perm_of_eq, operate_changes-logged}
use trsync.Runner.Worked.Forget.{forget, confirmed-forget}

-- The changes of the server whose path is not that of a change of the folder.
abbrev pub from_server : List RemoteChange → List LocalChange → List RemoteChange
from_server remote_changes local_changes =
    filter (λ c. not (contains (map LocalPath.path local_changes) (RemotePath.path c)))
      remote_changes

sync_-resolved :
    (I : Interface) (fuel : ℕ) (remote_changes : List RemoteChange)
    (local_changes : List LocalChange) (o : I.Operator)
    → sync_ I fuel remote_changes local_changes o
      ≡ confirmed I
          (from_server remote_changes local_changes)
          local_changes
          (apply I fuel (from_server remote_changes local_changes) local_changes)
          o
unfolding sync_
sync_-resolved I fuel remote_changes local_changes o =
    rw (sync_, (resolve-reference remote_changes local_changes).0)

module _ (I : Interface) where
  -- The user has been asked about these changes, and has refused.
  abbrev pub Refused : List RemoteChange → List LocalChange → I.Operator → Type 0
  Refused remote_changes local_changes o =
      (I.deal remote_changes local_changes (I.send waiting_startup_sync_confirmation o).1).0
      ≡ ok false

  -- The log is that of these changes, each once, those of the folder behind those of the server.
  abbrev pub AllOperated : List Event → List RemoteChange → List LocalChange → Type 0
  AllOperated log remote_changes local_changes =
      (first : List Event) × (last : List Event) × (log ≡ first ++ last)
      × Perm first (map from_change (map Change.remote remote_changes))
      × Perm last (map from_change (map Change.local local_changes))

  both_operated :
      (remote_changes : List RemoteChange) (local_changes : List LocalChange)
      (log1 log : List Event)
      → Operated [] log1 (map Change.remote remote_changes) []
      → Operated log1 log (map Change.local local_changes) []
      → AllOperated log remote_changes local_changes
  both_operated remote_changes local_changes log1 log (first, same, found) (last, same', found') = (
    first,
    last,
    same' ∙ ap (λ l. l ++ last) same,
    Perm.trans (perm_of_eq (sym (append-nil first))) found,
    Perm.trans (perm_of_eq (sym (append-nil last))) found',
  )

  apply-logged :
      (fuel : ℕ) (remote_changes : List RemoteChange) (local_changes : List LocalChange)
      (o o' : I.Operator) (log : List Event)
      → apply (logged I) fuel remote_changes local_changes (o, []) ≡ some (ok tt, (o', log))
      → AllOperated log remote_changes local_changes
  unfolding apply
  apply-logged fuel remote_changes local_changes o o' log p =
      elim (Option-cases
        (operate_changes (logged I) fuel (map Change.remote remote_changes) (o, []))) [
          | inl n ↦ absurd (ground arith)
          | inr ((err e, (o1, log1)), q) ↦ absurd (ground arith)
          | inr ((ok _, (o1, log1)), q) ↦
              elim (Option-cases
                (operate_changes (logged I) fuel (map Change.local local_changes) (o1, log1))) [
                  | inl n ↦ absurd (ground arith)
                  | inr ((err e, (o2, log2)), r) ↦ absurd (ground arith)
                  | inr ((ok _, (o2, log2)), r) ↦
                      both_operated remote_changes local_changes log1 log
                        (operate_changes-logged I fuel (map Change.remote remote_changes) o [] o1
                          log1 (ground arith))
                        (operate_changes-logged I fuel (map Change.local local_changes) o1 log1 o'
                          log (ground arith))
                ]
        ]

  confirmed-logged :
      (fuel : ℕ) (remote_changes : List RemoteChange) (local_changes : List LocalChange)
      (o o' : I.Operator) (log : List Event)
      → confirmed
          (logged I)
          remote_changes
          local_changes
          (apply (logged I) fuel remote_changes local_changes)
          (o, [])
        ≡ some (ok tt, (o', log))
      → (Refused remote_changes local_changes o × (log ≡ []))
        ⊎ AllOperated log remote_changes local_changes
  unfolding confirmed
  confirmed-logged fuel remote_changes local_changes o o' log p =
      let asked = (I.send waiting_startup_sync_confirmation o).1 in
      let answer = I.deal remote_changes local_changes asked in
      elim (Bool-cases (length remote_changes == 0 && length local_changes == 0)) [
        | inl h ↦ inr (apply-logged fuel remote_changes local_changes o o' log (ground arith))
        | inr h ↦ elim (Bool-cases (I.send waiting_startup_sync_confirmation o).0) [
          | inr n ↦ absurd (ground arith)
          | inl y ↦ elim (Outcome-cases answer.0) [
            | inl (e, q) ↦ absurd (ground arith)
            | inr (false, q) ↦ inl (q, ground arith)
            | inr (true, q) ↦ elim (Bool-cases (I.send idle answer.1).0) [
              | inr n ↦ absurd (ground arith)
              | inl z ↦ inr (
                  apply-logged fuel remote_changes local_changes (I.send idle answer.1).1 o' log
                    (ground arith))
            ]
          ]
        ]
      ]

  -- With more fuel than there are changes on either side, the startup synchronization ends, whatever the operator
  -- does, and its run with the list of the events that the operator operated with success is this: it has failed;
  -- or the user has refused and nothing was operated; or each change of the server whose path is not that of a
  -- change of the folder was operated with success exactly once, and after these each change of the folder,
  -- exactly once too.
  pub sync_-operated :
      (fuel : ℕ) (remote_changes : List RemoteChange) (local_changes : List LocalChange)
      (o : I.Operator)
      → length remote_changes < fuel
      → length local_changes < fuel
      → (r : Outcome RunnerError (Unit {0})) × (o' : I.Operator) × (log : List Event) × (sync_ I
            fuel remote_changes local_changes o
          ≡ some (r, o'))
        × (sync_ (logged I) fuel remote_changes local_changes (o, []) ≡ some (r, (o', log)))
        × (((e : RunnerError) × (r ≡ err e))
            ⊎ (Refused (from_server remote_changes local_changes) local_changes o × (log ≡ []))
            ⊎ AllOperated log (from_server remote_changes local_changes) local_changes)
  sync_-operated fuel remote_changes local_changes o hr hl =
      let kept = from_server remote_changes local_changes in
      let same : sync_ I fuel remote_changes local_changes o
          ≡ forget I (sync_ (logged I) fuel remote_changes local_changes (o, [])) =
        sync_-resolved I fuel remote_changes local_changes o
        ∙ confirmed-forget I fuel kept local_changes o []
        ∙ ap (forget I)
            (sym (sync_-resolved (logged I) fuel remote_changes local_changes (o, []))) in
      elim (Option-cases (sync_ (logged I) fuel remote_changes local_changes (o, []))) [
        | inl n ↦ absurd (sync__total (logged I) fuel remote_changes local_changes (o, []) hr hl n)
        | inr ((err e, (o', log)), q) ↦ (err e, o', log, same ∙ ap (forget I) q, q, inl (e, refl))
        | inr ((ok _, (o', log)), q) ↦ (
          ok tt,
          o',
          log,
          same ∙ ap (forget I) q,
          q,
          inr (
              confirmed-logged fuel kept local_changes o o' log
                (sym (sync_-resolved (logged I) fuel remote_changes local_changes (o, [])) ∙ q)),
        )
      ]
