-- ===== src/Tests/Window.antt =====
-- The configuration window.
use trsync.Base.{
  ◌≡◌, ◌≢◌, refl, true, false, none, some, List, [], ◌∷◌, ◌++◌, map, contains, ok, err, ◌==◌,
  nat_eq, list_eq,
}
use trsync.Base.HashMap.{contains_key}
use trsync.Base.Lines.{codes}
use trsync.Core.Config.{Ini, ManagerConfig}
use trsync.Core.Instance.{Workspace}
use trsync.Configure.{GuiInstance, default, from_config, root, instance_of, State}
use trsync.Configure.App.{
  Event, instance_credentials_accepted, instance_workspaces_retrieved_success,
  instance_selected_workspaces_validated, delete_instance_wanted, global_configuration_updated,
  failed, panic, Desktop, new,
}
use trsync.Configure.Window.{Frame, renamed, shown_instance}
use trsync.Configure.React.{react, updates}
use trsync.Configure.Panels.{Matches, from_config-Matches}
use trsync.Configure.Kept.{updates-Matches}
use trsync.Configure.Told.{Works}
use trsync.Configure.Told.Runs.{updates-run}
use trsync.Configure.Refused.{react-refused_password}
use trsync.Manager.{TrsyncUid, uid_eq, expected_processes}
use trsync.Manager.Run.{reload, Running, run}
use trsync.Manager.Run as Daemon
use trsync.Tests.Daemon.{tracim, daemon, running, web, folders, answers, makes}

abbrev no_file : Ini
no_file = record {
  Conf = Unit {0};
  new = tt;
  set = λ s k v c. tt;
  section = λ c s. false;
  get = λ c s k. none;
}

-- The world is what has been sent.
abbrev desktop : Desktop no_file
desktop = record {
  World = List ManagerConfig;
  write_to_file = λ c w. (ok tt, w);
  send = λ config w. (true, w ++ (config ∷ []));
  set_password = λ name password w. (ok tt, w);
  spawn_grabber = λ g w. (ok tt, w);
  spawn_updater = λ g w. (ok tt, w);
}

abbrev locked : Desktop no_file
locked = record desktop { set_password = λ name password w. (err tt, w) }

works : Works desktop (λ w. w)
works = record {
  writes = λ c w. (w, refl, refl);
  sends = λ config w. (w ++ (config ∷ []), refl, refl);
  sets = λ name password w. (w, refl, refl);
  grabs = λ g w. (w, refl, refl);
  checks = λ g w. (w, refl, refl);
}

-- A new instance is entered, and one of its two spaces is chosen.
abbrev filled : GuiInstance
unfolding default
filled = record default {
  address = codes "new";
  username = codes "user";
  password = codes "secret";
}

abbrev space : Workspace
space = record { label = codes "Space"; workspace_id = 7 }

abbrev chosen : GuiInstance
chosen = record filled {
  name = codes "new";
  workspaces = some (space ∷ []);
  workspaces_ids_checkboxes =
      record { checked = true; workspace_id = 7; label = codes "Space" } ∷ [];
}

abbrev frame : List Event → Frame
frame events = record {
  received = events;
  current_panel = root;
  base_folder = codes "/home";
  confirm_startup_sync = true;
  popup_confirm_startup_sync = true;
  clicked = [];
  close_error = false;
  confirm_deletion = true;
  close_deletion = false;
}

abbrev frames : List Frame
frames =
    frame (instance_credentials_accepted filled ∷ [])
    ∷ frame (instance_workspaces_retrieved_success (codes "new") (space ∷ []) ∷ [])
    ∷ frame (instance_selected_workspaces_validated chosen ∷ [])
    ∷ frame (delete_instance_wanted tracim ∷ [])
    ∷ []

updates-Matches_example :
    let after = updates locked frames (new (from_config daemon.config), []) in
    Matches after.1.0.state × (after.0 ≢ err panic)
updates-Matches_example = updates-Matches locked daemon.config frames []

updates-run_example :
    let after = updates desktop frames (new (from_config daemon.config), []) in
    (r : Running) × (run (λ t. web) folders 1 (map reload after.1.1 ++ Daemon.stop ∷ []) running
      ≡ some (ok (ok tt, r)))
    × ((u : TrsyncUid)
        → contains_key r.daemon.processes u
          ≡ contains (expected_processes after.1.0.state.instances) u)
updates-run_example =
    updates-run desktop (λ w. w) works (λ t. web) folders 0 frames [] running (λ t. answers) makes
      refl

is_new : (filled.name == []) ≡ true
unfolding list_eq nat_eq default
is_new = refl

react-refused_password_example :
    (s : State) × (react locked
        (instance_credentials_accepted filled ∷ global_configuration_updated ∷ [])
        (new (from_config daemon.config), [])
      ≡ (err failed, (shown_instance (some s) (new (from_config daemon.config)), [])))
    × Matches s
    × (s.instances
        ≡ (new (from_config daemon.config)).state.instances ++ (instance_of (renamed filled) ∷ []))
unfolding new
react-refused_password_example =
    react-refused_password locked filled (global_configuration_updated ∷ [])
      (new (from_config daemon.config)) [] [] (from_config-Matches daemon.config) is_new refl
