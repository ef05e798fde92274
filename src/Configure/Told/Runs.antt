-- ===== src/Configure/Told/Runs.antt =====
-- configure/src/app.rs with manager/src/daemon.rs: the daemon runs what the configuration window shows.
use trsync.Base.{
  ℕ, suc, true, Bool-cases, Option-cases, inl, inr, ◌≡◌, ap, ◌∙◌, none, some, List, [], ◌∷◌, ◌++◌,
  map, contains, Outcome, ok, ◌==◌, nat_eq, list_eq,
}
use trsync.Base.HashMap.{contains_key}
use trsync.Base.Lines.{Text}
use trsync.Core.Config.{Ini, ManagerConfig}
use trsync.Configure.{GuiInstance, from_config, remove_instance}
use trsync.Configure.App.{
  Event, global_configuration_updated, instance_credentials_updated, validate_new_instance,
  instance_credentials_accepted, instance_credentials_refused, instance_credentials_failed,
  instance_workspaces_retrieved_success, instance_workspaces_retrieved_failure,
  instance_selected_workspaces_validated, delete_instance_wanted, Complaint, App, Stop, failed,
  panic, Desktop, new, with_instance, update_gui_instance_workspaces,
  update_instance_selected_workspaces,
}
use trsync.Configure.Window.{
  complaints, renamed, done_updating, Frame, no_window, draw, error_window,
}
use trsync.Configure.React.{
  Step, continued, change, change_state, save_config, save_credentials, check_instance_credentials,
  checked, enter_instance, react_to, react, caught, deletion, deletion_window, update, updates,
}
use trsync.Configure.Told.{
  Works, Told, Anything, Ends, fine, stopped, Does, bind-Does, save_config-Does, outside-Does,
  change-Does, Told-same,
}
use trsync.Manager.{TrsyncUid, uid_eq, Folders, expected_processes}
use trsync.Manager.Client.{Web}
use trsync.Manager.Ensure.{Answers}
use trsync.Manager.Prepare.{Makes}
use trsync.Manager.Run.{reload, stop, Running, run}
use trsync.Manager.Run.Reload.{last_config, run-RunsAll}

module _ {I : Ini} (D : Desktop I) (sent : D.World → List ManagerConfig) (works : Works D sent)
    (start : ManagerConfig) where
  abbrev Known : App → D.World → Type 0
  Known = Told D sent works start

  abbrev Any : App → D.World → Type 0
  Any = Anything D sent works start

  abbrev Triple :
      {A : Type 0} → (App → D.World → Type 0) → Step D A → (App → D.World → Type 0) → Type 0
  Triple P m Q = Does D sent works start P m Q

  checked-Does :
      (g : GuiInstance) (l : List (Text × Complaint)) → Triple Known (checked D g l) Known
  checked-Does g [] =
      bind-Does D sent works start Known _ _
        (outside-Does D sent works start Known (λ a w. D.spawn_updater g w)
          λ a w.
            let (w', done, same) = works.checks g w in
            (w', done, Told-same D sent works start a w w' same))
        (λ _. change-Does D sent works start Known Known _ (λ a w t. t))
  checked-Does g (e ∷ l) = change-Does D sent works start Known Known _ (λ a w t. t)

  check-Does : (g : GuiInstance) → Triple Known (check_instance_credentials D g) Known
  unfolding check_instance_credentials
  check-Does g =
      bind-Does D sent works start Known _ _
        (change-Does D sent works start Known Known _ (λ a w t. t))
        (λ _. checked-Does g (complaints g))

  enter_instance-Does : (g : GuiInstance) → Triple Known (enter_instance D g) Any
  unfolding enter_instance list_eq nat_eq
  enter_instance-Does g = record {
    does = λ a w t. elim (Bool-cases (g.name == [])) [
      | inr old ↦ rw (enter_instance, old) (fine _ _ w tt)
      | inl new ↦ elim (Option-cases (with_instance (renamed g) a.state)) [
        | inl n ↦ rw (enter_instance, new, n) (stopped panic a w t)
        | inr (s, e) ↦ rw (enter_instance, new, e) (fine _ _ w tt)
      ]
    ];
  }

  accepted-Does :
      (g : GuiInstance) → Triple Known (react_to D (instance_credentials_accepted g)) Known
  unfolding react_to save_credentials
  accepted-Does g = bind-Does D sent works start Any _ _ (enter_instance-Does g) λ g'.
      bind-Does D sent works start Any _ _
        (outside-Does D sent works start Any (λ a w. D.set_password g'.name g'.password w)
          λ a w. let (w', done, same) = works.sets g'.name g'.password w in (w', done, λ t. tt))
        λ _. bind-Does D sent works start Known _ _ (save_config-Does D sent works start) λ _.
          outside-Does D sent works start Known (λ a w. D.spawn_grabber g' w)
            λ a w.
              let (w', done, same) = works.grabs g' w in
              (w', done, Told-same D sent works start a w w' same)

  forgetting-Does :
      (f : App → App) (m : Step D (Unit {0}))
      → Triple Any m Known
      → Triple Known (λ s. continued D (λ _. m) (change D f s)) Known
  forgetting-Does f m d =
      bind-Does D sent works start Any _ _
        (change-Does D sent works start Known Any f (λ a w t. tt)) (λ _. d)

  react_to-Does : (event : Event) → Triple Known (react_to D event) Known
  unfolding react_to update_gui_instance_workspaces
  react_to-Does global_configuration_updated = record {
    does = λ a w t. (save_config-Does D sent works start).does a w tt;
  }
  react_to-Does (instance_credentials_updated g) = check-Does g
  react_to-Does (validate_new_instance g) = check-Does g
  react_to-Does (instance_credentials_accepted g) = accepted-Does g
  react_to-Does (instance_credentials_refused g) =
      change-Does D sent works start Known Known _ (λ a w t. t)
  react_to-Does (instance_credentials_failed g) =
      change-Does D sent works start Known Known _ (λ a w t. t)
  react_to-Does (instance_workspaces_retrieved_success id workspaces) =
      bind-Does D sent works start Known (change D (done_updating id))
        (λ _. change_state D (update_gui_instance_workspaces id workspaces))
        (change-Does D sent works start Known Known (done_updating id) (λ a w t. t))
        λ _. record {
          does = λ a w t.
              fine tt (record a { state = update_gui_instance_workspaces id workspaces a.state }) w
                t;
        }
  react_to-Does (instance_workspaces_retrieved_failure id) =
      change-Does D sent works start Known Known _ (λ a w t. t)
  react_to-Does (instance_selected_workspaces_validated g) =
      forgetting-Does (λ a. record a { state = update_instance_selected_workspaces g a.state })
        (save_config D) (save_config-Does D sent works start)
  react_to-Does (delete_instance_wanted id) =
      change-Does D sent works start Known Known _ (λ a w t. t)

  react-Does : (events : List Event) → Triple Known (react D events) Known
  unfolding react
  react-Does [] = change-Does D sent works start Known Known (λ a. a) (λ a w t. t)
  react-Does (event ∷ events) =
      bind-Does D sent works start Known _ _ (react_to-Does event) (λ _. react-Does events)

  deletion-Does : (id : Text) → Triple Any (deletion D id) Known
  unfolding deletion
  deletion-Does id =
      bind-Does D sent works start Any _ _
        (change-Does D sent works start Any Any
          (λ a. record a { state = remove_instance id a.state }) (λ a w t. tt))
        λ _. bind-Does D sent works start Known _ _ (save_config-Does D sent works start) λ _.
          change-Does D sent works start Known Known (λ a. record a { delete_instance = none })
            (λ a w t. t)

  deletion_window-Does : (f : Frame) → Triple Known (deletion_window D f) Known
  unfolding deletion_window
  deletion_window-Does f = record {
    does = λ a w t. elim (Option-cases a.delete_instance) [
      | inl n ↦ rw (deletion_window, n) (fine tt a w t)
      | inr (id, s) ↦ elim (Bool-cases f.confirm_deletion) [
        | inl y ↦ rw (deletion_window, s, y) ((deletion-Does id).does a w tt)
        | inr n ↦ rw (deletion_window, s, n) (fine _ _ w t)
      ]
    ];
  }

  caught-Ends :
      (r : Outcome Stop (Unit {0}) × (App × D.World))
      → Ends D sent works start Known r
      → Ends D sent works start Known (caught D r)
  caught-Ends r (fine x a w t) = fine tt a w t
  caught-Ends r (stopped failed a w t) = fine tt (record a { windowed_error = true }) w t
  caught-Ends r (stopped panic a w t) = stopped panic a w t

  caught-Does :
      (m : Step D (Unit {0})) → Triple Known m Known → Triple Known (λ s. caught D (m s)) Known
  caught-Does m d = record { does = λ a w t. caught-Ends (m (a, w)) (d.does a w t) }

  Known-error_window : (f : Frame) (a : App) (w : D.World) → Known a w → Known (error_window f a) w
  unfolding error_window
  Known-error_window f a w t = elim (Bool-cases a.windowed_error) [
    | inl y ↦ rw (error_window, y) t
    | inr n ↦ rw (error_window, n) t
  ]

  Known-draw : (f : Frame) (a : App) (w : D.World) → Known a w → Known (draw f a).1 w
  unfolding draw
  Known-draw f a w t = elim (Bool-cases (no_window a)) [
    | inl y ↦ rw (draw, y) t
    | inr n ↦ rw (draw, n) t
  ]

  update-Does : (f : Frame) → Triple Known (update D f) Known
  unfolding update
  update-Does f = record {
    does = λ a w t.
        (bind-Does D sent works start Known _ _ (caught-Does _ (react-Does (draw f a).0)) λ _.
            bind-Does D sent works start Known _ _
              (change-Does D sent works start Known Known (error_window f) (Known-error_window f))
              (λ _. caught-Does _ (deletion_window-Does f))).does
          (draw f a).1 w (Known-draw f a w t);
  }

  updates-Does : (frames : List Frame) → Triple Known (updates D frames) Known
  unfolding updates
  updates-Does [] = change-Does D sent works start Known Known (λ a. a) (λ a w t. t)
  updates-Does (f ∷ frames) =
      bind-Does D sent works start Known _ _ (update-Does f) (λ _. updates-Does frames)

  Ends-Known :
      (r : Outcome Stop (Unit {0}) × (App × D.World))
      → Ends D sent works start Known r
      → Known r.1.0 r.1.1
  Ends-Known r (fine x a w t) = t
  Ends-Known r (stopped e a w t) = t

-- Where what is outside the window works, the server answers for every space and folders can be made: whatever the
-- user does in the frames of the window, a daemon with the same configuration at the start, which is given what
-- the window has sent and then stopped, ends with exactly the synchronizations of the instances that the window
-- holds.
pub updates-run :
    {I : Ini} (D : Desktop I) (sent : D.World → List ManagerConfig) (works : Works D sent)
    (web : ℕ → Web) (F : Folders) (fuel : ℕ) (frames : List Frame) (w : D.World) (r : Running)
    → ((t : ℕ) → Answers (web t))
    → Makes F
    → sent w ≡ []
    → let after = updates D frames (new (from_config r.daemon.config), w) in
      (r' : Running) × (run web F (suc fuel) (map reload (sent after.1.1) ++ stop ∷ []) r
        ≡ some (ok (ok tt, r')))
      × ((u : TrsyncUid)
          → contains_key r'.daemon.processes u
            ≡ contains (expected_processes after.1.0.state.instances) u)
unfolding new from_config
updates-run D sent works web F fuel frames w r answers makes empty =
    let config = r.daemon.config in
    let known = Ends-Known D sent works config _ (
      (updates-Does D sent works config frames).does (new (from_config config)) w
        (ap (λ configs. (last_config configs config).instances) empty)) in
    let after = updates D frames (new (from_config config), w) in
    let (r', e, all) = run-RunsAll web F answers makes fuel (sent after.1.1) r in
    (r', e, λ u. all u ∙ ap (λ is. contains (expected_processes is) u) known)
