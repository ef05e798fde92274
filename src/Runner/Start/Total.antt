-- ===== src/Runner/Start/Total.antt =====
-- trsync/src/run2.rs: a run that leaves after the startup synchronization ends.
use trsync.Base.{
  ℕ, length, map, filter, ◌≤◌, ◌<◌, Bool, true, false, Bool-cases, Outcome-cases, Option-cases, inl,
  inr, ◌≡◌, ◌≢◌, refl, none, List, [], ◌∷◌, ok, err, arith, ◌&&◌, ◌==◌, nat_eq, list_eq, string_eq,
  not, contains,
}
use trsync.Core.Change.{Change}
use trsync.Core.Change.Local.{LocalChange}
use trsync.Core.Change.Remote.{RemoteChange}
use trsync.Core.Change.Local as LocalPath
use trsync.Core.Change.Remote as RemotePath
use trsync.Sync.Resolved.{resolve-reference}
use trsync.Runner.{
  Interface, idle, startup_sync, waiting_startup_sync_confirmation, Ran, sync_, confirmed, apply,
  operate_changes, Turn,
}
use trsync.Runner.Retry.{operate_changes_total}
use trsync.Runner.Start.{Preparation, read_and_sync, sync, run}

length-map : {A B : Type 0} (f : A → B) (xs : List A) → length (map f xs) ≡ length xs
length-map f [] = refl
length-map f (x ∷ xs) = omega (arith, length-map f xs)

length-filter : {A : Type 0} (p : A → Bool) (xs : List A) → length (filter p xs) ≤ length xs
length-filter p [] = omega arith
length-filter p (x ∷ xs) = elim (Bool-cases (p x)) [
  | inl h ↦ ground (arith, length-filter p xs)
  | inr h ↦ ground (arith, length-filter p xs)
]

module _ (I : Interface) where
  apply_total :
      (fuel : ℕ) (remote_changes : List RemoteChange) (local_changes : List LocalChange)
      (o : I.Operator)
      → length remote_changes < fuel
      → length local_changes < fuel
      → apply I fuel remote_changes local_changes o ≢ none
  unfolding apply
  apply_total fuel remote_changes local_changes o hr hl =
      let total =
        operate_changes_total I fuel (map Change.remote remote_changes) o
          (omega (arith, length-map Change.remote remote_changes)) in
      elim (Option-cases (operate_changes I fuel (map Change.remote remote_changes) o)) [
        | inl n ↦ absurd (total n)
        | inr ((err e, o1), q) ↦ ground (arith, q)
        | inr ((ok _, o1), q) ↦
            let total1 =
              operate_changes_total I fuel (map Change.local local_changes) o1
                (omega (arith, length-map Change.local local_changes)) in
            elim (Option-cases (operate_changes I fuel (map Change.local local_changes) o1)) [
              | inl n ↦ absurd (total1 n)
              | inr ((err e, o2), p) ↦ ground arith
              | inr ((ok _, o2), p) ↦ ground arith
            ]
      ]

  confirmed_total :
      (remote_changes : List RemoteChange) (local_changes : List LocalChange)
      (next : I.Operator → Ran I) (o : I.Operator)
      → ((o' : I.Operator) → next o' ≢ none)
      → confirmed I remote_changes local_changes next o ≢ none
  unfolding confirmed
  confirmed_total remote_changes local_changes next o total =
      let asked = (I.send waiting_startup_sync_confirmation o).1 in
      let answer = I.deal remote_changes local_changes asked in
      elim (Bool-cases (length remote_changes == 0 && length local_changes == 0)) [
        | inl h ↦ ground (arith, total o)
        | inr h ↦ elim (Bool-cases (I.send waiting_startup_sync_confirmation o).0) [
          | inr n ↦ ground arith
          | inl y ↦ elim (Outcome-cases answer.0) [
            | inl (e, p) ↦ ground arith
            | inr (false, p) ↦ ground arith
            | inr (true, p) ↦ elim (Bool-cases (I.send idle answer.1).0) [
              | inr n ↦ ground arith
              | inl z ↦ ground (arith, total (I.send idle answer.1).1)
            ]
          ]
        ]
      ]

  pub sync__total :
      (fuel : ℕ) (remote_changes : List RemoteChange) (local_changes : List LocalChange)
      (o : I.Operator)
      → length remote_changes < fuel
      → length local_changes < fuel
      → sync_ I fuel remote_changes local_changes o ≢ none
  unfolding sync_
  sync__total fuel remote_changes local_changes o hr hl =
      let kept =
        filter (λ c. not (contains (map LocalPath.path local_changes) (RemotePath.path c)))
          remote_changes in
      rw (sync_, (resolve-reference remote_changes local_changes).0)
        (confirmed_total kept local_changes (apply I fuel kept local_changes) o (λ o'.
          apply_total fuel kept local_changes o'
            (omega (
              arith,
              length-filter
                  (λ c. not (contains (map LocalPath.path local_changes) (RemotePath.path c)))
                  remote_changes,
            ))
            hl))

module _ (I : Interface) (S : Preparation I) where
  -- What is read of the changes is never more than the fuel.
  pub record Bounded (fuel : ℕ) : Type 0 where
    pub few_remote :
        (o : I.Operator) (changes : List RemoteChange)
        → (S.remote_changes o).0 ≡ ok changes
        → length changes < fuel
    pub few_local :
        (o : I.Operator) (changes : List LocalChange)
        → (S.local_changes o).0 ≡ ok changes
        → length changes < fuel

  read_and_sync_total : (fuel : ℕ) (o : I.Operator) → Bounded fuel → read_and_sync I S fuel o ≢ none
  unfolding read_and_sync
  read_and_sync_total fuel o b =
      let o1 = (S.remote_changes o).1 in
      elim (Outcome-cases (S.remote_changes o).0) [
        | inl (e, p) ↦ ground arith
        | inr (remote_changes, p) ↦ elim (Outcome-cases (S.local_changes o1).0) [
          | inl (e, q) ↦ ground arith
          | inr (local_changes, q) ↦ ground (
            arith,
            sync__total I fuel remote_changes local_changes (S.local_changes o1).1
                (b.few_remote o remote_changes p) (b.few_local o1 local_changes q),
          )
        ]
      ]

  sync_total : (fuel : ℕ) (o : I.Operator) → Bounded fuel → sync I S fuel o ≢ none
  unfolding sync
  sync_total fuel o b =
      let o1 = (I.send (startup_sync none) o).1 in
      let total = read_and_sync_total fuel o1 b in
      elim (Bool-cases (I.send (startup_sync none) o).0) [
        | inr n ↦ ground arith
        | inl y ↦ elim (Option-cases (read_and_sync I S fuel o1)) [
          | inl n ↦ absurd (total n)
          | inr ((r, o2), e) ↦ elim (Bool-cases (I.send idle o2).0) [
            | inl z ↦ ground arith
            | inr z ↦ ground arith
          ]
        ]
      ]

  -- A run that leaves after the startup synchronization ends, whatever the operator does, with more fuel than
  -- there are changes on either side.
  pub run_total :
      (fuel : ℕ) (turns : List Turn) (o : I.Operator)
      → Bounded fuel
      → S.exit_after_sync ≡ true
      → run I S fuel turns o ≢ none
  unfolding run
  run_total fuel turns o b leaves =
      let o1 = (S.prepare o).1 in
      let total = sync_total fuel o1 b in
      elim (Outcome-cases (S.prepare o).0) [
        | inl (e, p) ↦ ground arith
        | inr (_, p) ↦ elim (Option-cases (sync I S fuel o1)) [
          | inl n ↦ absurd (total n)
          | inr ((err e, o2), q) ↦ ground arith
          | inr ((ok _, o2), q) ↦ ground arith
        ]
      ]
