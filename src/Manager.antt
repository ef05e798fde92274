-- ===== src/Manager.antt =====
-- manager/src/daemon.rs: which synchronizations the daemon starts and stops. The server and the file system are
-- parameters; a thread is known by its stop signal.
pub mod Client
pub mod Ensure
pub mod Prepare
pub mod Run
use trsync.Base.{
  ℕ, suc, Eq, list_eq, nat_eq, Bool, true, false, not, Option, none, some, List, [], ◌∷◌, ◌++◌, map,
  filter, find, contains, Outcome, ok, err, ◌>>=◌, ◌>>◌, map_err, ok_or, ◌==◌, if◌then◌else◌,
}
use trsync.Base.HashMap.{HashMap, keys, lookup, contains_key, insert, remove}
use trsync.Base.Lines.{Text, codes}
use trsync.Core.Config.{Instance, ManagerConfig}
use trsync.Core.Instance.{Workspace}
use trsync.Core.Job.{JobIdentifier, job_eq}
use trsync.Core.Label.{split}
use trsync.Runner.Context.{Context, path_join, new, job_identifier}
use trsync.Runner.Politic.{RemoteControl}
use Client.{Web, get_workspace}

-- manager/src/types.rs
pub record TrsyncUid : Type 0 where
  pub instance_address : Text
  pub workspace_id : ℕ

text_discrete : Discrete Text
unfolding list_eq nat_eq
text_discrete = list_eq.dec

number_discrete : Discrete ℕ
unfolding nat_eq
number_discrete = nat_eq.dec

uid_discrete : Discrete TrsyncUid
uid_discrete = hlevel (text_discrete, number_discrete)

instance unfoldable pub uid_eq : Eq TrsyncUid
unfolding uid_discrete text_discrete number_discrete
uid_eq = record { dec = uid_discrete }

abbrev pub uid : Text → ℕ → TrsyncUid
uid address id = record { instance_address = address; workspace_id = id }

pub data Error : Type 0 where
  channel_error unavailable_network unexpected_error : Error

-- What ends the start of a synchronization: an error, which is only logged, or a panic of the daemon.
pub data Stop : Type 0 where
  failed : Error → Stop
  panic : Stop

-- What a synchronization's thread is given, but for its stop signal.
pub record Launch : Type 0 where
  pub context : Context
  pub control : RemoteControl

-- The stop signals are numbers, and so are the channels of a job; the signals that have been set are kept.
pub record Daemon : Type 0 where
  pub config : ManagerConfig
  pub processes : HashMap TrsyncUid ℕ
  pub threads : List (ℕ × Launch)
  pub sync_exchanger : HashMap JobIdentifier ℕ
  pub error_exchanger : HashMap JobIdentifier ℕ
  pub next_signal : ℕ
  pub stopped : List ℕ

unfoldable pub expected_processes : List Instance → List TrsyncUid
expected_processes [] = []
expected_processes (instance_ ∷ rest) =
    map (uid instance_.address) instance_.workspaces_ids ++ expected_processes rest

unfoldable pub get_processes_to_stop : Daemon → List TrsyncUid
unfolding expected_processes
get_processes_to_stop d =
    filter (λ u. not (contains (expected_processes d.config.instances) u)) (keys d.processes)

-- `stop_process`; a process that is not there would be a panic, and is none that the daemon stops.
unfoldable pub stop_process : TrsyncUid → Daemon → Daemon
unfolding remove
stop_process u d = elim (lookup u d.processes) [
  | none ↦ d
  | some signal ↦ record d { processes = remove u d.processes; stopped = signal ∷ d.stopped }
]

unfoldable pub stop_all : List TrsyncUid → Daemon → Daemon
unfolding stop_process
stop_all [] d = d
stop_all (u ∷ us) d = stop_all us (stop_process u d)

module _ (W : Web) where
  -- The inner loop of `get_processes_to_start`.
  unfoldable pub workspaces_to_start :
      HashMap TrsyncUid ℕ → Instance → List ℕ → Outcome Error (List TrsyncUid)
  unfolding get_workspace
  workspaces_to_start processes instance_ [] = ok []
  workspaces_to_start processes instance_ (id ∷ ids) = do
    workspace ← map_err (λ _. unavailable_network) (get_workspace W instance_ id)
    rest ← workspaces_to_start processes instance_ ids
    ok (
        if contains_key processes (uid instance_.address workspace.workspace_id)
        then rest
        else uid instance_.address workspace.workspace_id ∷ rest)

  unfoldable pub get_processes_to_start :
      HashMap TrsyncUid ℕ → List Instance → Outcome Error (List TrsyncUid)
  unfolding workspaces_to_start
  get_processes_to_start processes [] = ok []
  get_processes_to_start processes (instance_ ∷ rest) = do
    _ ← map_err (λ _. unexpected_error) W.build
    uids ← workspaces_to_start processes instance_ instance_.workspaces_ids
    more ← get_processes_to_start processes rest
    ok (uids ++ more)

-- What the file system answers: whether a folder can be made, and its path without links.
pub record Folders : Type 0 where
  pub create_dir_all : Text → Outcome (Unit {0}) (Unit {0})
  pub canonicalize : Text → Outcome (Unit {0}) Text

last_part : List Text → Option Text
last_part [] = none
last_part (part ∷ []) = if part == [] then none else some part
last_part (part ∷ next ∷ parts) = last_part (next ∷ parts)

-- `Path::file_name` of a path from the root without `..`
unfoldable pub folder_name : Text → Option Text
unfolding split last_part
folder_name path = last_part (split b'/' path)

abbrev or_failed : {A E : Type 0} → Outcome E A → Outcome Stop A
or_failed r = map_err (λ e. failed unexpected_error) r

abbrev pub wanted_path : ManagerConfig → Instance → Workspace → Text
unfolding path_join
wanted_path config instance_ workspace =
    path_join (path_join config.local_folder instance_.address) workspace.label

abbrev pub launch_of : ManagerConfig → Instance → Workspace → Text → Text → Launch
unfolding new
launch_of config instance_ workspace folder_path workspace_name = record {
  context =
      new (not instance_.unsecure) instance_.address instance_.username instance_.password
        folder_path workspace.workspace_id workspace_name false;
  control = record {
    sync_channels = true;
    user_request_sender = true;
    confirm_startup_sync = config.confirm_startup_sync;
    popup_confirm_startup_sync = config.popup_confirm_startup_sync;
  };
}

module _ (W : Web) (F : Folders) where
  -- `start_process`, up to the thread
  unfoldable pub prepare : ManagerConfig → TrsyncUid → Outcome Stop Launch
  unfolding get_workspace path_join folder_name new list_eq nat_eq
  prepare config u = do
    instance_ ←
        ok_or (find (λ (i : Instance). i.address == u.instance_address) config.instances) panic
    _ ← or_failed W.build
    workspace ← or_failed (get_workspace W instance_ u.workspace_id)
    _ ← or_failed (F.create_dir_all (wanted_path config instance_ workspace))
    folder_path ← or_failed (F.canonicalize (wanted_path config instance_ workspace))
    workspace_name ← ok_or (folder_name folder_path) panic
    ok (launch_of config instance_ workspace folder_path workspace_name)

abbrev pub started : TrsyncUid → Launch → Daemon → Daemon
unfolding insert job_identifier
started u l d = record d {
  processes = insert u d.next_signal d.processes;
  threads = (d.next_signal, l) ∷ d.threads;
  sync_exchanger = insert (job_identifier l.context) d.next_signal d.sync_exchanger;
  error_exchanger = insert (job_identifier l.context) d.next_signal d.error_exchanger;
  next_signal = suc d.next_signal;
}

module _ (launch : TrsyncUid → Outcome Stop Launch) where
  -- `start_process`; an error is only logged.
  unfoldable pub start_process : TrsyncUid → Daemon → Outcome Stop Daemon
  unfolding insert job_identifier
  start_process u d = elim (launch u) [
    | err panic ↦ err panic
    | err (failed e) ↦ ok d
    | ok l ↦ ok (started u l d)
  ]

  unfoldable pub start_all : List TrsyncUid → Daemon → Outcome Stop Daemon
  unfolding start_process
  start_all [] d = ok d
  start_all (u ∷ us) d = do d' ← start_process u d; start_all us d'

module _ (W : Web) (F : Folders) where
  -- `ensure_processes`; only a panic is no result.
  unfoldable pub ensure_processes : Daemon → Outcome Stop (Outcome Error (Unit {0}) × Daemon)
  unfolding get_processes_to_start get_processes_to_stop stop_all start_all prepare
  ensure_processes d = elim (get_processes_to_start W d.processes d.config.instances) [
    | err e ↦ ok (err e, d)
    | ok starts ↦ do
      d' ← start_all (prepare W F d.config) starts (stop_all (get_processes_to_stop d) d)
      ok (ok tt, d')
  ]
