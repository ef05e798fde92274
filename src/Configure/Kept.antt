-- ===== src/Configure/Kept.antt =====
-- configure/src/app.rs: what every frame of the configuration window keeps.
use trsync.Base.{
  Bool, true, false, Bool-cases, Option-cases, inl, inr, ◌≢◌, refl, none, List, [], ◌∷◌, Outcome,
  ok, err, ◌==◌, nat_eq, list_eq,
}
use trsync.Base.Lines.{Text}
use trsync.Core.Config.{Ini, ManagerConfig, to_ini}
use trsync.Configure.{from_config, GuiInstance, State, to_config, remove_instance}
use trsync.Configure.App.{
  Event, global_configuration_updated, instance_credentials_updated, validate_new_instance,
  instance_credentials_accepted, instance_credentials_refused, instance_credentials_failed,
  instance_workspaces_retrieved_success, instance_workspaces_retrieved_failure,
  instance_selected_workspaces_validated, delete_instance_wanted, Complaint, App, Stop, failed,
  panic, Desktop, new, update_gui_instance_workspaces, update_instance_selected_workspaces,
}
use trsync.Configure.Window.{
  complaints, renamed, done_updating, Frame, no_window, draw, error_window,
}
use trsync.Configure.React.{
  Step, continued, outside, told, change, change_state, save_config, save_credentials,
  check_instance_credentials, checked, deletion, enter_instance, react_to, react, caught,
  deletion_window, update, updates,
}
use trsync.Configure.Panels.{
  from_config-Matches, Matches, with_instance-Matches, update_instance-Matches,
  update_gui_instance_workspaces-Matches, update_instance_selected_workspaces-Matches,
  remove_instance-Matches,
}

module _ {I : Ini} (D : Desktop I) where
  abbrev Good : {A : Type 0} → Outcome Stop A × (App × D.World) → Type 0
  Good r = Matches r.1.0.state × (r.0 ≢ err panic)

  record Keeps {A : Type 0} (m : Step D A) : Type 0 where
    kept : (a : App) (w : D.World) → Matches a.state → Good (m (a, w))

  continued-Good :
      {A B : Type 0} (f : A → Step D B) (r : Outcome Stop A × (App × D.World))
      → Good r
      → ((x : A) → Keeps (f x))
      → Good (continued D f r)
  continued-Good f (ok x, (a, w)) (m, n) keeps = (keeps x).kept a w m
  continued-Good f (err e, (a, w)) (m, n) keeps = (m, λ h. n (cc))

  bind-Keeps :
      {A B : Type 0} (m : Step D A) (f : A → Step D B)
      → Keeps m
      → ((x : A) → Keeps (f x))
      → Keeps (λ s. continued D f (m s))
  bind-Keeps m f k keeps = record {
    kept = λ a w h. continued-Good f (m (a, w)) (k.kept a w h) keeps;
  }

  outside-Good :
      (a : App) (r : Outcome (Unit {0}) (Unit {0}) × D.World)
      → Matches a.state
      → Good (outside D a r)
  outside-Good a (ok _, w) m = (m, λ h. cc)
  outside-Good a (err _, w) m = (m, λ h. cc)

  outside-Keeps :
      (act : App → D.World → Outcome (Unit {0}) (Unit {0}) × D.World)
      → Keeps (λ (a, w). outside D a (act a w))
  outside-Keeps act = record { kept = λ a w. outside-Good a (act a w) }

  told-Good : (a : App) (r : Bool × D.World) → Matches a.state → Good (told D a r)
  told-Good a (true, w) m = (m, λ h. cc)
  told-Good a (false, w) m = (m, λ h. cc)

  told-Keeps : (act : App → D.World → Bool × D.World) → Keeps (λ (a, w). told D a (act a w))
  told-Keeps act = record { kept = λ a w. told-Good a (act a w) }

  change-Keeps :
      (f : App → App) → ((a : App) → Matches a.state → Matches (f a).state) → Keeps (change D f)
  change-Keeps f keeps = record { kept = λ a w m. (keeps a m, λ h. cc) }

  change_state-Keeps :
      (f : State → State) → ((s : State) → Matches s → Matches (f s)) → Keeps (change_state D f)
  change_state-Keeps f keeps = record { kept = λ a w m. (keeps a.state m, λ h. cc) }

  save_config-Keeps : Keeps (save_config D)
  unfolding save_config
  save_config-Keeps =
      bind-Keeps _ _ (outside-Keeps (λ a w. D.write_to_file (to_ini I (to_config a.state)) w))
        (λ _. told-Keeps (λ a w. D.send (to_config a.state) w))

  save_credentials-Keeps : (g : GuiInstance) → Keeps (save_credentials D g)
  unfolding save_credentials
  save_credentials-Keeps g = outside-Keeps (λ a w. D.set_password g.name g.password w)

  checked-Keeps : (g : GuiInstance) (l : List (Text × Complaint)) → Keeps (checked D g l)
  checked-Keeps g [] =
      bind-Keeps _ _ (outside-Keeps (λ a w. D.spawn_updater g w)) (λ _. change-Keeps _ (λ a m. m))
  checked-Keeps g (e ∷ l) = change-Keeps _ (λ a m. m)

  check-Keeps : (g : GuiInstance) → Keeps (check_instance_credentials D g)
  unfolding check_instance_credentials
  check-Keeps g = bind-Keeps _ _ (change-Keeps _ (λ a m. m)) (λ _. checked-Keeps g (complaints g))

  enter_instance-Keeps : (g : GuiInstance) → Keeps (enter_instance D g)
  unfolding enter_instance list_eq nat_eq
  enter_instance-Keeps g = record {
    kept = λ a w m. elim (Bool-cases (g.name == [])) [
      | inl new ↦
          let (s', e, m', _) = with_instance-Matches (renamed g) a.state m in
          rw (enter_instance, new, e) (m', λ h. cc)
      | inr old ↦ rw (enter_instance, old) (update_instance-Matches g a.state m, λ h. cc)
    ];
  }

  react_to-Keeps : (event : Event) → Keeps (react_to D event)
  unfolding react_to
  react_to-Keeps global_configuration_updated = save_config-Keeps
  react_to-Keeps (instance_credentials_updated g) = check-Keeps g
  react_to-Keeps (validate_new_instance g) = check-Keeps g
  react_to-Keeps (instance_credentials_accepted g) = bind-Keeps _ _ (enter_instance-Keeps g) λ g'.
      bind-Keeps _ _ (save_credentials-Keeps g')
        λ _. bind-Keeps _ _ save_config-Keeps (λ _. outside-Keeps (λ a w. D.spawn_grabber g' w))
  react_to-Keeps (instance_credentials_refused g) = change-Keeps _ (λ a m. m)
  react_to-Keeps (instance_credentials_failed g) = change-Keeps _ (λ a m. m)
  react_to-Keeps (instance_workspaces_retrieved_success id workspaces) =
      bind-Keeps _ _ (change-Keeps (done_updating id) (λ a m. m)) λ _.
        change_state-Keeps (update_gui_instance_workspaces id workspaces)
          (update_gui_instance_workspaces-Matches id workspaces)
  react_to-Keeps (instance_workspaces_retrieved_failure id) = change-Keeps _ (λ a m. m)
  react_to-Keeps (instance_selected_workspaces_validated g) =
      bind-Keeps _ _
        (change_state-Keeps (update_instance_selected_workspaces g)
          (update_instance_selected_workspaces-Matches g))
        (λ _. save_config-Keeps)
  react_to-Keeps (delete_instance_wanted id) = change-Keeps _ (λ a m. m)

  react-Keeps : (events : List Event) → Keeps (react D events)
  unfolding react
  react-Keeps [] = change-Keeps _ (λ a m. m)
  react-Keeps (event ∷ events) = bind-Keeps _ _ (react_to-Keeps event) (λ _. react-Keeps events)

  caught-Good : (r : Outcome Stop (Unit {0}) × (App × D.World)) → Good r → Good (caught D r)
  caught-Good (ok _, (a, w)) (m, n) = (m, λ h. cc)
  caught-Good (err failed, (a, w)) (m, n) = (m, λ h. cc)
  caught-Good (err panic, (a, w)) (m, n) = (m, λ h. n refl)

  error_window-Matches : (f : Frame) (a : App) → Matches a.state → Matches (error_window f a).state
  unfolding error_window
  error_window-Matches f a m = elim (Bool-cases a.windowed_error) [
    | inl y ↦ rw (error_window, y) m
    | inr n ↦ rw (error_window, n) m
  ]

  deletion-Keeps : (id : Text) → Keeps (deletion D id)
  unfolding deletion
  deletion-Keeps id =
      bind-Keeps _ _ (change_state-Keeps (remove_instance id) (remove_instance-Matches id)) λ _.
        bind-Keeps _ _ save_config-Keeps
          (λ _. change-Keeps (λ a. record a { delete_instance = none }) (λ a m. m))

  deletion_window-Keeps : (f : Frame) → Keeps (deletion_window D f)
  unfolding deletion_window
  deletion_window-Keeps f = record {
    kept = λ a w m. elim (Option-cases a.delete_instance) [
      | inl n ↦ rw (deletion_window, n) (m, λ h. cc)
      | inr (id, s) ↦ elim (Bool-cases f.confirm_deletion) [
        | inl y ↦ rw (deletion_window, s, y) ((deletion-Keeps id).kept a w m)
        | inr n ↦ rw (deletion_window, s, n) (m, λ h. cc)
      ]
    ];
  }

  caught-Keeps : (m : Step D (Unit {0})) → Keeps m → Keeps (λ s. caught D (m s))
  caught-Keeps m k = record { kept = λ a w h. caught-Good (m (a, w)) (k.kept a w h) }

  draw-Matches : (f : Frame) (a : App) → Matches a.state → Matches (draw f a).1.state
  unfolding draw
  draw-Matches f a m = elim (Bool-cases (no_window a)) [
    | inl y ↦ rw (draw, y) m
    | inr n ↦ rw (draw, n) m
  ]

  update-Keeps : (f : Frame) → Keeps (update D f)
  unfolding update
  update-Keeps f = record {
    kept = λ a w m.
        (bind-Keeps _ _ (caught-Keeps _ (react-Keeps (draw f a).0)) λ _.
            bind-Keeps _ _ (change-Keeps (error_window f) (error_window-Matches f))
              λ _. caught-Keeps _ (deletion_window-Keeps f)).kept
          (draw f a).1 w (draw-Matches f a m);
  }

  updates-Keeps : (frames : List Frame) → Keeps (updates D frames)
  unfolding updates
  updates-Keeps [] = change-Keeps (λ a. a) (λ a m. m)
  updates-Keeps (f ∷ frames) = bind-Keeps _ _ (update-Keeps f) (λ _. updates-Keeps frames)

  -- Whatever the user does in the frames of the window, whatever it is told and whatever fails outside: its panels
  -- are the one of the settings, one for each instance in their order and the form for a new one, and no frame
  -- panics.
  pub updates-Matches :
      (config : ManagerConfig) (frames : List Frame) (w : D.World)
      → let after = updates D frames (new (from_config config), w) in
        Matches after.1.0.state × (after.0 ≢ err panic)
  unfolding new
  updates-Matches config frames w =
      (updates-Keeps frames).kept (new (from_config config)) w (from_config-Matches config)
