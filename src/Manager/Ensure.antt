-- ===== src/Manager/Ensure.antt =====
-- manager/src/daemon.rs: what runs after `ensure_processes`.
use trsync.Base.{
  contains-filter, contains-append_or, ℕ, Bool, true, false, nat_eq, not, ◌&&◌, ◌||◌, Bool-cases,
  Option-cases, inl, inr, ◌≡◌, refl, ap, sym, List, [], ◌∷◌, ◌++◌, map, contains, Outcome, ok, err,
  ◌==◌, ◌⊎◌, arith,
}
use trsync.Base.HashMap.{HashMap, keys, lookup, contains_key, lookup-insert, lookup-remove}
use trsync.Base.Lines.{Text}
use trsync.Core.Config.{Instance}
use trsync.Manager.{
  TrsyncUid, uid_eq, uid, Error, Stop, failed, Launch, Folders, Daemon, workspaces_to_start,
  get_processes_to_start, expected_processes, get_processes_to_stop, stop_process, start_process,
  stop_all, started, start_all, prepare, ensure_processes,
}
use trsync.Manager.Client.{Web, get_workspace, workspace_url}

contains-keys : (m : HashMap TrsyncUid ℕ) (u : TrsyncUid) → contains (keys m) u ≡ contains_key m u
contains-keys [] u = refl
contains-keys ((k, v) ∷ m) u = elim (uid_eq.dec k u) [
  | yes p ↦ elim (uid_eq.dec u k) [
    | yes q ↦ ground (arith, contains-keys m u)
    | no q ↦ absurd (q (sym p))
  ]
  | no p ↦ elim (uid_eq.dec u k) [
    | yes q ↦ absurd (p (sym q))
    | no q ↦ ground (arith, contains-keys m u)
  ]
]

contains_key-stop_process :
    (u v : TrsyncUid) (d : Daemon)
    → contains_key (stop_process u d).processes v ≡ (contains_key d.processes v && not (u == v))
unfolding stop_process
contains_key-stop_process u v d = elim (Option-cases (lookup u d.processes)) [
  | inl e ↦ elim (uid_eq.dec u v) [
    | yes p ↦ ground (arith, ap (λ x. lookup x d.processes) p)
    | no p ↦ ground arith
  ]
  | inr (signal, e) ↦ elim (uid_eq.dec u v) [
    | yes p ↦ ground (arith, lookup-remove v u d.processes, sym p)
    | no p ↦ elim (uid_eq.dec v u) [
      | yes q ↦ absurd (p (sym q))
      | no q ↦ ground (arith, lookup-remove v u d.processes)
    ]
  ]
]

contains_key-stop_all :
    (us : List TrsyncUid) (v : TrsyncUid) (d : Daemon)
    → contains_key (stop_all us d).processes v ≡ (contains_key d.processes v && not (contains us v))
unfolding stop_all
contains_key-stop_all [] v d = ground arith
contains_key-stop_all (u ∷ us) v d =
    ground (arith, contains_key-stop_all us v (stop_process u d), contains_key-stop_process u v d)

-- Nothing panics, and the synchronizations of `runs` are those that can be started.
abbrev pub Launches : (TrsyncUid → Outcome Stop Launch) → (TrsyncUid → Bool) → TrsyncUid → Type 0
Launches launch runs u =
    ((runs u ≡ true) × (l : Launch) × (launch u ≡ ok l))
    ⊎ ((runs u ≡ false) × (e : Error) × (launch u ≡ err (failed e)))

module _ (launch : TrsyncUid → Outcome Stop Launch) (runs : TrsyncUid → Bool) where
  contains_key-start_process :
      (u : TrsyncUid) (d : Daemon)
      → Launches launch runs u
      → (d' : Daemon) × (start_process launch u d ≡ ok d')
        × ((v : TrsyncUid)
            → contains_key d'.processes v ≡ (u == v && runs v || contains_key d.processes v))
  unfolding start_process
  contains_key-start_process u d (inl (y, l, e)) = (
    started u l d,
    rw (start_process, e) refl,
    λ v. elim (uid_eq.dec u v) [
      | yes p ↦ elim (uid_eq.dec v u) [
        | yes q ↦ ground (arith, lookup-insert v u d.next_signal d.processes, ap runs p)
        | no q ↦ absurd (q (sym p))
      ]
      | no p ↦ elim (uid_eq.dec v u) [
        | yes q ↦ absurd (p (sym q))
        | no q ↦ ground (arith, lookup-insert v u d.next_signal d.processes)
      ]
    ],
  )
  contains_key-start_process u d (inr (n, f, e)) = (
    d,
    rw (start_process, e) refl,
    λ v. elim (uid_eq.dec u v) [ yes p ↦ ground (arith, ap runs p) | no p ↦ ground arith ],
  )

  contains_key-start_all :
      (us : List TrsyncUid) (d : Daemon)
      → ((u : TrsyncUid) → contains us u ≡ true → Launches launch runs u)
      → (d' : Daemon) × (start_all launch us d ≡ ok d')
        × ((v : TrsyncUid)
            → contains_key d'.processes v ≡ (contains us v && runs v || contains_key d.processes v))
  unfolding start_all
  contains_key-start_all [] d all = (d, refl, λ v. refl)
  contains_key-start_all (u ∷ us) d all =
      let (d1, e, one) = contains_key-start_process u d (all u (ground arith)) in
      let (d2, f, rest) = contains_key-start_all us d1 (λ v m. all v (ground arith)) in
      (d2, rw (start_all, e) f, λ v. ground (arith, one v, rest v))

-- The server answers for every space, and says of each the number that it was asked for.
abbrev pub Answers : Web → Type 0
Answers W =
    (W.build ≡ ok tt)
    × ((i : Instance) (id : ℕ)
        → (response : W.Response) × (label : Text) × (W.send (workspace_url i id) i.username
              i.password
            ≡ ok response)
          × (W.status response ≡ 200)
          × (W.json_of response ≡ ok (record { label = label; workspace_id = id })))

module _ (W : Web) (answers : Answers W) where
  pub fetched :
      (i : Instance) (id : ℕ)
      → (label : Text) × (get_workspace W i id ≡ ok (record { label = label; workspace_id = id }))
  unfolding get_workspace nat_eq
  fetched i id =
      let (response, label, sent, s, j) = answers.1 i id in
      (label, rw (get_workspace, sent, s, j) refl)

  workspaces_to_start-expected :
      (m : HashMap TrsyncUid ℕ) (i : Instance) (ids : List ℕ)
      → (us : List TrsyncUid) × (workspaces_to_start W m i ids ≡ ok us)
        × ((u : TrsyncUid)
            → contains us u ≡ (contains (map (uid i.address) ids) u && not (contains_key m u)))
  unfolding workspaces_to_start
  workspaces_to_start-expected m i [] = ([], refl, λ u. refl)
  workspaces_to_start-expected m i (id ∷ ids) =
      let (us, e, same) = workspaces_to_start-expected m i ids in
      let (label, got) = fetched i id in
      elim (Bool-cases (contains_key m (uid i.address id))) [
        | inl k ↦ (
          us,
          ground (arith, got),
          λ u. elim (uid_eq.dec (uid i.address id) u) [
            | yes p ↦ ground (arith, same u, ap (contains_key m) p)
            | no p ↦ ground (arith, same u)
          ],
        )
        | inr k ↦ (
          uid i.address id ∷ us,
          ground (arith, got),
          λ u. elim (uid_eq.dec (uid i.address id) u) [
            | yes p ↦ ground (arith, same u, ap (contains_key m) p)
            | no p ↦ ground (arith, same u)
          ],
        )
      ]

  to_start-expected :
      (m : HashMap TrsyncUid ℕ) (instances : List Instance)
      → (us : List TrsyncUid) × (get_processes_to_start W m instances ≡ ok us)
        × ((u : TrsyncUid)
            → contains us u ≡ (contains (expected_processes instances) u && not (contains_key m u)))
  unfolding get_processes_to_start expected_processes
  to_start-expected m [] = ([], refl, λ u. refl)
  to_start-expected m (i ∷ rest) =
      let (us, e, same) = workspaces_to_start-expected m i i.workspaces_ids in
      let (vs, f, later) = to_start-expected m rest in
      (
        us ++ vs,
        rw (get_processes_to_start, answers.0, e, f) refl,
        λ u. ground (
          arith,
          contains-append_or us vs u,
          same u,
          later u,
          contains-append_or (map (uid i.address) i.workspaces_ids) (expected_processes rest) u,
        ),
      )

  -- Where the server answers for every space, `ensure_processes` succeeds. Afterwards those synchronizations run
  -- that the configuration names, but for those that did not run before and cannot be started.
  pub ensure_processes-expected :
      (F : Folders) (d : Daemon) (runs : TrsyncUid → Bool)
      → ((u : TrsyncUid)
          → contains (expected_processes d.config.instances) u ≡ true
          → Launches (prepare W F d.config) runs u)
      → (d' : Daemon) × (ensure_processes W F d ≡ ok (ok tt, d'))
        × ((u : TrsyncUid)
            → contains_key d'.processes u ≡ (
                contains (expected_processes d.config.instances) u
                && (contains_key d.processes u || runs u)))
  unfolding ensure_processes get_processes_to_stop
  ensure_processes-expected F d runs all =
      let (us, e, same) = to_start-expected d.processes d.config.instances in
      let (d', f, after) =
        contains_key-start_all (prepare W F d.config) runs us (stop_all (get_processes_to_stop d) d)
          (λ u m. all u (ground (arith, same u))) in
      (
        d',
        rw (ensure_processes, e, f) refl,
        λ u. ground (
          arith,
          after u,
          same u,
          contains_key-stop_all (get_processes_to_stop d) u d,
          contains-keys d.processes u,
          contains-filter (λ v. not (contains (expected_processes d.config.instances) v))
              (keys d.processes) u,
        ),
      )
