-- ===== src/Configure/Told.antt =====
-- configure/src/app.rs: what the configuration window has told the daemon, where all that is outside works.
pub mod Runs
use trsync.Base.{
  ℕ, suc, Bool, true, false, Bool-cases, Option-cases, inl, inr, ◌≡◌, refl, sym, ap, ◌∙◌, none,
  some, List, [], ◌∷◌, ◌++◌, map, contains, Outcome, ok, err, ◌==◌, nat_eq, list_eq,
}
use trsync.Base.HashMap.{contains_key}
use trsync.Base.Lines.{Text}
use trsync.Core.Config.{Ini, ManagerConfig, to_ini}
use trsync.Configure.{GuiInstance, State, from_config, to_config, remove_instance}
use trsync.Configure.App.{
  Event, global_configuration_updated, instance_credentials_updated, validate_new_instance,
  instance_credentials_accepted, instance_credentials_refused, instance_credentials_failed,
  instance_workspaces_retrieved_success, instance_workspaces_retrieved_failure,
  instance_selected_workspaces_validated, delete_instance_wanted, Complaint, App, Stop, failed,
  panic, Desktop, new, with_instance, update_gui_instance_workspaces,
  update_instance_selected_workspaces,
}
use trsync.Configure.Window.{
  complaints, renamed, done_updating, Frame, no_window, draw, error_window,
}
use trsync.Configure.React.{
  Step, continued, outside, told, change, change_state, save_config, save_credentials,
  check_instance_credentials, checked, enter_instance, react_to, react, caught, deletion,
  deletion_window, update, updates,
}
use trsync.Manager.{TrsyncUid, uid_eq, Folders, expected_processes}
use trsync.Manager.Client.{Web}
use trsync.Manager.Ensure.{Answers}
use trsync.Manager.Prepare.{Makes}
use trsync.Manager.Run.{reload, stop, Running, run}
use trsync.Manager.Run.Reload.{last_config, run-RunsAll}

pub last_config-append :
    (configs : List ManagerConfig) (next start : ManagerConfig)
    → last_config (configs ++ (next ∷ [])) start ≡ next
last_config-append [] next start = refl
last_config-append (c ∷ configs) next start = last_config-append configs next c

module _ {I : Ini} (D : Desktop I) (sent : D.World → List ManagerConfig) where
  -- What is outside works, and `sent` is what the window has sent to the daemon so far.
  pub record Works : Type 0 where
    pub writes :
        (c : I.Conf) (w : D.World)
        → (w' : D.World) × (D.write_to_file c w ≡ (ok tt, w')) × (sent w' ≡ sent w)
    pub sends :
        (config : ManagerConfig) (w : D.World)
        → (w' : D.World) × (D.send config w ≡ (true, w')) × (sent w' ≡ sent w ++ (config ∷ []))
    pub sets :
        (name password : Text) (w : D.World)
        → (w' : D.World) × (D.set_password name password w ≡ (ok tt, w')) × (sent w' ≡ sent w)
    pub grabs :
        (g : GuiInstance) (w : D.World)
        → (w' : D.World) × (D.spawn_grabber g w ≡ (ok tt, w')) × (sent w' ≡ sent w)
    pub checks :
        (g : GuiInstance) (w : D.World)
        → (w' : D.World) × (D.spawn_updater g w ≡ (ok tt, w')) × (sent w' ≡ sent w)

  module _ (works : Works) (start : ManagerConfig) where
    -- The instances of the last configuration that the daemon was given are those of the window.
    abbrev pub Told : App → D.World → Type 0
    Told a w = (last_config (sent w) start).instances ≡ a.state.instances

    abbrev pub Anything : App → D.World → Type 0
    Anything a w = Unit {0}

    -- An early end leaves the daemon informed.
    pub data Ends {A : Type 0} (Q : App → D.World → Type 0)
        : Outcome Stop A × (App × D.World) → Type 0 where
      fine : (x : A) (a : App) (w : D.World) → Q a w → Ends Q (ok x, (a, w))
      stopped : (e : Stop) (a : App) (w : D.World) → Told a w → Ends Q (err e, (a, w))

    pub record Does {A : Type 0} (P : App → D.World → Type 0) (m : Step D A)
        (Q : App → D.World → Type 0) : Type 0 where
      pub does : (a : App) (w : D.World) → P a w → Ends Q (m (a, w))

    continued-Ends :
        {A B : Type 0} (Q R : App → D.World → Type 0) (f : A → Step D B)
        (r : Outcome Stop A × (App × D.World))
        → ((x : A) → Does Q (f x) R)
        → Ends Q r
        → Ends R (continued D f r)
    continued-Ends Q R f r next (fine x a w q) = (next x).does a w q
    continued-Ends Q R f r next (stopped e a w t) = stopped e a w t

    pub bind-Does :
        {A B : Type 0} {P R : App → D.World → Type 0} (Q : App → D.World → Type 0) (m : Step D A)
        (f : A → Step D B)
        → Does P m Q
        → ((x : A) → Does Q (f x) R)
        → Does P (λ s. continued D f (m s)) R
    bind-Does Q m f d next = record {
      does = λ a w p. continued-Ends Q _ f (m (a, w)) next (d.does a w p);
    }

    pub save_config-Does : Does Anything (save_config D) Told
    unfolding save_config to_config
    save_config-Does = record {
      does = λ a w _.
          let (w1, written, same) = works.writes (to_ini I (to_config a.state)) w in
          let (w2, given, later) = works.sends (to_config a.state) w1 in
          rw (save_config, written, given)
            (fine tt a w2 (
              ap (λ configs. (last_config configs start).instances) later
              ∙ ap (λ (c : ManagerConfig). c.instances)
                  (last_config-append (sent w1) (to_config a.state) start)));
    }

    -- A thread is started, or a password kept: the daemon knows what it knew.
    pub outside-Does :
        (P : App → D.World → Type 0) (act : App → D.World → Outcome (Unit {0}) (Unit {0}) × D.World)
        → ((a : App) (w : D.World) → (w' : D.World) × (act a w ≡ (ok tt, w')) × (P a w → P a w'))
        → Does P (λ (a, w). outside D a (act a w)) P
    outside-Does P act acts = record {
      does = λ a w p. let (w', done, keeps) = acts a w in rw (done) (fine tt a w' (keeps p));
    }

    pub Told-same : (a : App) (w w' : D.World) → sent w' ≡ sent w → Told a w → Told a w'
    Told-same a w w' same t = ap (λ configs. (last_config configs start).instances) same ∙ t

    pub change-Does :
        (P Q : App → D.World → Type 0) (f : App → App)
        → ((a : App) (w : D.World) → P a w → Q (f a) w)
        → Does P (change D f) Q
    change-Does P Q f keeps = record { does = λ a w p. fine tt (f a) w (keeps a w p) }
