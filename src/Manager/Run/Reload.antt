-- ===== src/Manager/Run/Reload.antt =====
-- manager/src/daemon.rs: what a reload does, with the server at hand and without.
use trsync.Base.{
  ℕ, zero, suc, true, false, none, some, List, [], ◌∷◌, ◌++◌, map, contains, length, ok, err, inl,
  ◌≡◌, refl, arith, ◌==◌, nat_eq,
}
use trsync.Base.HashMap.{contains_key}
use trsync.Core.Config.{Instance, ManagerConfig}
use trsync.Core.Client.{ReqwestError}
use trsync.Manager.{
  TrsyncUid, uid_eq, Folders, Daemon, expected_processes, workspaces_to_start,
  get_processes_to_start, ensure_processes,
}
use trsync.Manager.Client.{Web, get_workspace, workspace_url}
use trsync.Manager.Ensure.{Answers, ensure_processes-expected}
use trsync.Manager.Prepare.{Makes, prepare-expected}
use trsync.Manager.Run.{
  DaemonMessage, reload, stop, Running, after_attempt, ensure, reloaded, proceed, run,
}

abbrev pub last_config : List ManagerConfig → ManagerConfig → ManagerConfig
last_config [] config = config
last_config (next ∷ rest) config = last_config rest next

-- The synchronizations that run are those of the configuration.
abbrev pub RunsAll : Daemon → ManagerConfig → Type 0
RunsAll d config =
    (u : TrsyncUid) → contains_key d.processes u ≡ contains (expected_processes config.instances) u

module _ (web : ℕ → Web) (F : Folders) where
  module _ (answers : (t : ℕ) → Answers (web t)) (makes : Makes F) where
    ensure-RunsAll :
        (fuel : ℕ) (waiting : List DaemonMessage) (r : Running)
        → (r' : Running) × (ensure web F (suc fuel) waiting r ≡ some (ok r'))
          × RunsAll r'.daemon r.daemon.config
    unfolding ensure
    ensure-RunsAll fuel waiting r =
        let W = web r.attempts in
        let (d, e, runs) =
          ensure_processes-expected W (answers r.attempts) F r.daemon (λ u. true)
            λ u m.
              let (l, i, p, _, _, _, _, _) =
                prepare-expected W F r.daemon.config u (answers r.attempts) makes m in
              inl (refl, l, p) in
        (after_attempt web F d false r, rw (ensure, e) refl, λ u. ground (arith, runs u))

    proceed-RunsAll :
        (fuel : ℕ) (configs : List ManagerConfig) (r : Running) (config : ManagerConfig)
        → RunsAll r.daemon config
        → (r' : Running) × (proceed web F (suc fuel) (map reload configs ++ stop ∷ []) r
            ≡ some (ok (ok tt, r')))
          × RunsAll r'.daemon (last_config configs config)
    unfolding proceed
    proceed-RunsAll fuel [] r config all = (r, refl, all)
    proceed-RunsAll fuel (next ∷ rest) r config all =
        let (r1, e, all1) =
          ensure-RunsAll fuel (map reload rest ++ stop ∷ []) (reloaded web F next r) in
        let (r2, f, all2) = proceed-RunsAll fuel rest r1 next all1 in (r2, rw (proceed, e) f, all2)

    -- Where the server answers for every space and folders can be made, the daemon works off its messages
    -- and ends at the stop, with exactly those synchronizations that the last configuration names.
    pub run-RunsAll :
        (fuel : ℕ) (configs : List ManagerConfig) (r : Running)
        → (r' : Running) × (run web F (suc fuel) (map reload configs ++ stop ∷ []) r
            ≡ some (ok (ok tt, r')))
          × RunsAll r'.daemon (last_config configs r.daemon.config)
    unfolding run
    run-RunsAll fuel configs r =
        let (r1, e, all1) = ensure-RunsAll fuel [] r in
        let (r2, f, all2) = proceed-RunsAll fuel configs r1 r.daemon.config all1 in
        (r2, rw (run, e) f, all2)

  -- At each attempt no request is answered.
  module _
      (offline : (t : ℕ) (i : Instance) (id : ℕ)
        → (e : ReqwestError) × ((web t).send (workspace_url i id) i.username i.password ≡ err e))
      (built : (t : ℕ) → (web t).build ≡ ok tt) where
    ensure-offline :
        (i : Instance) (id : ℕ) (ids : List ℕ) (others : List Instance) (fuel : ℕ)
        (waiting : List DaemonMessage) (r : Running)
        → r.daemon.config.instances ≡ i ∷ others
        → i.workspaces_ids ≡ id ∷ ids
        → ensure web F fuel waiting r ≡ none
    unfolding ensure ensure_processes get_processes_to_start workspaces_to_start get_workspace
    ensure-offline i id ids others zero waiting r h n = refl
    ensure-offline i id ids others (suc fuel) waiting r h n =
        let (e, q) = offline r.attempts i id in
        let again =
          ensure-offline i id ids others fuel waiting
            (after_attempt web F r.daemon (length waiting == 0) r) h n in
        ground (arith, again, q, built r.attempts, h, n)

    -- Where no request is answered, the reload of a configuration that names a space of its first instance does
    -- not end, and no message behind it is read, not even the stop.
    pub proceed-offline :
        (fuel : ℕ) (config : ManagerConfig) (i : Instance) (id : ℕ) (ids : List ℕ)
        (others : List Instance) (rest : List DaemonMessage) (r : Running)
        → config.instances ≡ i ∷ others
        → i.workspaces_ids ≡ id ∷ ids
        → proceed web F fuel (reload config ∷ rest) r ≡ none
    unfolding proceed
    proceed-offline fuel config i id ids others rest r h n =
        rw (proceed, ensure-offline i id ids others fuel rest (reloaded web F config r) h n) refl
