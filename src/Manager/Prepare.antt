-- ===== src/Manager/Prepare.antt =====
-- manager/src/daemon.rs: the context that a synchronization of the configuration is started with.
use trsync.Base.{
  contains-append_or, ℕ, true, nat_eq, list_eq, Bool-cases, inl, inr, ◌≡◌, refl, ap, some, List, [],
  ◌∷◌, map, contains, find, ok, ◌==◌, arith,
}
use trsync.Base.Lines.{Text}
use trsync.Core.Config.{Instance, ManagerConfig}
use trsync.Core.Instance.{Workspace}
use trsync.Runner.Context.{new}
use trsync.Manager.{
  TrsyncUid, uid_eq, uid, Launch, Folders, expected_processes, folder_name, wanted_path, launch_of,
  prepare,
}
use trsync.Manager.Client.{Web}
use trsync.Manager.Ensure.{Answers, fetched}

contains-uid :
    (address : Text) (ids : List ℕ) (u : TrsyncUid)
    → contains (map (uid address) ids) u ≡ true
    → address ≡ u.instance_address
contains-uid address [] u h = absurd (ground arith)
contains-uid address (id ∷ ids) u h = elim (uid_eq.dec (uid address id) u) [
  | yes p ↦ ap (λ (v : TrsyncUid). v.instance_address) p
  | no n ↦ contains-uid address ids u (ground arith)
]

abbrev Owner : List Instance → Text → Type 0
Owner instances address =
    (i : Instance) × (find (λ (i : Instance). i.address == address) instances ≡ some i)
    × (i.address ≡ address)

-- The instance that `start_process` looks for is there: its `expect` is no panic.
owner :
    (instances : List Instance) (u : TrsyncUid)
    → contains (expected_processes instances) u ≡ true
    → Owner instances u.instance_address
unfolding expected_processes
owner [] u h = absurd (ground arith)
owner (i ∷ rest) u h =
    let address_eq : Discrete Text = list_eq.dec in
    elim (address_eq i.address u.instance_address) [
      | yes p ↦ (i, ground arith, p)
      | no n ↦ elim (Bool-cases (contains (map (uid i.address) i.workspaces_ids) u)) [
        | inl y ↦ absurd (n (contains-uid i.address i.workspaces_ids u y))
        | inr f ↦
            let (j, found, same) = owner rest u (
              ground (
                arith,
                contains-append_or (map (uid i.address) i.workspaces_ids) (expected_processes rest)
                    u,
              )) in
            (j, ground arith, same)
      ]
    ]

-- Every folder can be made, and has a path with a last part.
abbrev pub Makes : Folders → Type 0
Makes F =
    ((path : Text) → F.create_dir_all path ≡ ok tt)
    × ((path : Text)
        → (real name : Text) × (F.canonicalize path ≡ ok real) × (folder_name real ≡ some name))

-- Where the server answers and folders can be made, each synchronization that the configuration names can be
-- started, without a panic, for its space on its server and with the credentials of an instance there.
pub prepare-expected :
    (W : Web) (F : Folders) (config : ManagerConfig) (u : TrsyncUid)
    → Answers W
    → Makes F
    → contains (expected_processes config.instances) u ≡ true
    → (l : Launch) × (i : Instance) × (prepare W F config u ≡ ok l)
      × (find (λ (i : Instance). i.address == u.instance_address) config.instances ≡ some i)
      × (l.context.instance_name ≡ u.instance_address)
      × (l.context.workspace_id ≡ u.workspace_id)
      × (l.context.username ≡ i.username)
      × (l.context.password ≡ i.password)
unfolding prepare new
prepare-expected W F config u answers makes h =
    let (i, found, same) = owner config.instances u h in
    let (label, got) = fetched W answers i u.workspace_id in
    let workspace : Workspace = record { label = label; workspace_id = u.workspace_id } in
    let (real, name, canonical, named) = makes.1 (wanted_path config i workspace) in
    (
      launch_of config i workspace real name,
      i,
      rw
          (
            prepare,
            found,
            answers.0,
            got,
            makes.0 (wanted_path config i workspace),
            canonical,
            named,
          )
          refl,
      found,
      same,
      refl,
      refl,
      refl,
    )
