-- ===== src/Tests/Daemon.antt =====
-- The manager.
use trsync.Base.HashMap.{contains_key}
use trsync.Base.{
  Bool, inl, ◌&&◌, ◌||◌, ℕ, ◌≡◌, refl, true, false, none, List, [], ◌∷◌, contains, ok, err, nat_eq,
  list_eq,
}
use trsync.Base.Lines.{Text, codes}
use trsync.Core.Client.{timeout, Piece, word, characters, number}
use trsync.Core.Config.{Instance, ManagerConfig}
use trsync.Core.Label.{split}
use trsync.Manager.{
  TrsyncUid, ensure_processes, uid, uid_eq, Folders, Daemon, prepare, folder_name,
  expected_processes,
}
use trsync.Manager.Client.{Web, workspace_url}
use trsync.Manager.Ensure.{Answers, Launches, ensure_processes-expected}
use trsync.Manager.Prepare.{Makes, prepare-expected}
use trsync.Manager.Run.{DaemonMessage, reload, Running, proceed}
use trsync.Manager.Run.Reload.{proceed-offline}

abbrev pub tracim : Text
tracim = codes "tracim"

abbrev pub instance_of : List ℕ → Instance
instance_of ids = record {
  name = tracim;
  address = tracim;
  unsecure = false;
  username = codes "user";
  password = codes "secret";
  workspaces_ids = ids;
}

abbrev pub config_of : List Instance → ManagerConfig
config_of instances = record {
  local_folder = codes "/home";
  icons_path = none;
  instances = instances;
  allow_raw_passwords = false;
  confirm_startup_sync = true;
  popup_confirm_startup_sync = true;
}

abbrev pub daemon : Daemon
daemon = record {
  config = config_of (instance_of (1 ∷ 2 ∷ []) ∷ []);
  processes = (uid tracim 2, 0) ∷ (uid tracim 3, 1) ∷ [];
  threads = [];
  sync_exchanger = [];
  error_exchanger = [];
  next_signal = 2;
  stopped = [];
}

abbrev pub running : Running
running = record { daemon = daemon; attempts = 0; pauses = 0 }

abbrev moved : ManagerConfig
moved = config_of (instance_of (2 ∷ 4 ∷ []) ∷ [])

abbrev pub last_number : List Piece → ℕ
last_number [] = 0
last_number (word text ∷ pieces) = last_number pieces
last_number (characters text ∷ pieces) = last_number pieces
last_number (number n ∷ []) = n
last_number (number n ∷ piece ∷ pieces) = last_number (piece ∷ pieces)

-- A server that has every space, and one that cannot be reached.
abbrev pub web : Web
web = record {
  Response = ℕ;
  build = ok tt;
  send = λ url user password. ok (last_number url);
  status = λ r. 200;
  json_of = λ r. ok (record { label = codes "Space"; workspace_id = r });
  text_of = λ r. err timeout;
}

abbrev unreachable : Web
unreachable = record web { send = λ url user password. err timeout }

abbrev pub folders : Folders
folders = record { create_dir_all = λ path. ok tt; canonicalize = λ path. ok (codes "/Space") }

pub answers : Answers web
unfolding workspace_url
answers = (refl, λ i id. (id, codes "Space", refl, refl, refl))

pub makes : Makes folders
unfolding folder_name split nat_eq list_eq
makes = ((λ path. refl), λ path. (codes "/Space", codes "Space", refl, refl))

named : contains (expected_processes moved.instances) (uid tracim 4) ≡ true
unfolding expected_processes uid_eq list_eq nat_eq
named = refl

proceed-offline_example :
    proceed (λ t. unreachable) folders 5 (reload moved ∷ DaemonMessage.stop ∷ []) running ≡ none
proceed-offline_example =
    proceed-offline (λ t. unreachable) folders (λ t i id. (timeout, refl)) (λ t. refl) 5 moved
      (instance_of (2 ∷ 4 ∷ [])) 2 (4 ∷ []) [] (DaemonMessage.stop ∷ []) running refl refl

all : TrsyncUid → Bool
all u = true

launches :
    (u : TrsyncUid)
    → contains (expected_processes daemon.config.instances) u ≡ true
    → Launches (prepare web folders daemon.config) all u
unfolding all
launches u m =
    let (l, i, p, _, _, _, _, _) = prepare-expected web folders daemon.config u answers makes m in
    inl (refl, l, p)

ensure_processes-expected_example :
    (d : Daemon) × (ensure_processes web folders daemon ≡ ok (ok tt, d))
    × ((u : TrsyncUid)
        → contains_key d.processes u ≡ (
            contains (expected_processes daemon.config.instances) u
            && (contains_key daemon.processes u || all u)))
ensure_processes-expected_example =
    ensure_processes-expected web answers folders daemon all launches
