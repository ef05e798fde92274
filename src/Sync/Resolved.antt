-- ===== src/Sync/Resolved.antt =====
-- trsync/src/sync/mod.rs: what the resolution keeps.
use trsync.Base.{
  contains-filter, Eq, Bool, true, not, ◌≡◌, refl, ap, List, [], ◌∷◌, map, ok, contains, filter,
  Bool-cases, inl, inr, ◌==◌, list_eq, string_eq, arith,
}
use trsync.Core.Change.Local.{LocalChange}
use trsync.Core.Change.Remote.{RemoteChange}
use trsync.Core.Change.Local as LocalPath
use trsync.Core.Change.Remote as RemotePath
use trsync.Sync.{
  StartupSyncResolver, ResolveMethod, force_local, force_remote, resolve, paths_in_conflicts,
  local_changes_paths,
}

module _ {K : Type 0} ⦃e : Eq K⦄ where
  contains-here : (x : K) (xs : List K) → contains (x ∷ xs) x ≡ true
  contains-here x xs = ground arith

  contains-there : (x : K) (xs : List K) (k : K) → contains xs k ≡ true → contains (x ∷ xs) k ≡ true
  contains-there x xs k p = elim (Bool-cases (x == k)) [
    | inl q ↦ ground arith
    | inr q ↦ ground arith
  ]

  -- Two tests that agree on the paths of a list keep the same of it.
  filter-cong :
      {A : Type 0} (path : A → K) (f g : K → Bool) (xs : List A)
      → ((k : K) → contains (map path xs) k ≡ true → f k ≡ g k)
      → filter (λ c. f (path c)) xs ≡ filter (λ c. g (path c)) xs
  filter-cong path f g [] same = refl
  filter-cong path f g (x ∷ xs) same = ground (
    arith,
    same (path x) (contains-here (path x) (map path xs)),
    filter-cong path f g xs (λ k p. same k (contains-there (path x) (map path xs) k p)),
  )

module _ (remote_changes : List RemoteChange) (local_changes : List LocalChange) where
  abbrev resolver : ResolveMethod → StartupSyncResolver
  resolver method = record {
    remote_changes = remote_changes;
    local_changes = local_changes;
    method = method;
  }

  -- Under `ForceLocal` all local changes are kept, and of the remote ones, in their order, those whose path
  -- is that of no local change. Under `ForceRemote` all remote changes are kept, and of the local ones
  -- those whose path is that of no remote change.
  pub resolve-reference :
      (resolve (resolver force_local)
        ≡ ok (
          filter
              (λ c. not (contains (map LocalPath.path local_changes) (RemotePath.path c)))
              remote_changes,
          local_changes,
        ))
      × (resolve (resolver force_remote)
          ≡ ok (
            remote_changes,
            filter
                (λ c. not (contains (map RemotePath.path remote_changes) (LocalPath.path c)))
                local_changes,
          ))
  unfolding resolve paths_in_conflicts local_changes_paths
  resolve-reference =
      let conflicts =
        contains-filter (contains (map LocalPath.path local_changes))
          (map RemotePath.path remote_changes) in
      (
        ap (λ rs. ok (rs, local_changes))
            (filter-cong RemotePath.path
              (λ p. not (contains (paths_in_conflicts (resolver force_local)) p))
              (λ p. not (contains (map LocalPath.path local_changes) p)) remote_changes
              (λ p q. ground (arith, conflicts p))),
        ap (λ ls. ok (remote_changes, ls))
            (filter-cong LocalPath.path
              (λ p. not (contains (paths_in_conflicts (resolver force_remote)) p))
              (λ p. not (contains (map RemotePath.path remote_changes) p)) local_changes
              (λ p q. ground (arith, conflicts p))),
      )
