-- ===== src/Configure/React.antt =====
-- configure/src/app.rs: `App::react` and `App::update`, with what the window does outside.
use trsync.Base.{
  Bool, true, false, none, some, List, [], ◌∷◌, ◌++◌, Outcome, ok, err, map_err, ◌==◌, nat_eq,
  list_eq, if◌then◌else◌,
}
use trsync.Base.Lines.{Text}
use trsync.Core.Config.{Ini, Instance, to_ini}
use trsync.Configure.{gui_instance, GuiInstance, State, to_config, remove_instance}
use trsync.Configure.Window.{
  complaints, forgotten, updating_too, renamed, shown_instance, done_updating, complained, Frame,
  draw, error_window,
}
use trsync.Configure.App.{
  Event, global_configuration_updated, instance_credentials_updated, validate_new_instance,
  instance_credentials_accepted, instance_credentials_refused, instance_credentials_failed,
  instance_workspaces_retrieved_success, instance_workspaces_retrieved_failure,
  instance_selected_workspaces_validated, delete_instance_wanted, Complaint, invalid_credentials,
  reported, App, Stop, failed, panic, Desktop, with_instance, update_instance,
  update_gui_instance_workspaces, update_instance_selected_workspaces, clear_add_instance_panel,
}

module _ {I : Ini} (D : Desktop I) where
  -- A method that changes the window and what is outside.
  abbrev pub Step : Type 0 → Type 0
  Step A = App × D.World → Outcome Stop A × (App × D.World)

  abbrev pub continued :
      {A B : Type 0}
      → (A → Step B)
      → Outcome Stop A × (App × D.World)
      → Outcome Stop B × (App × D.World)
  continued f (ok a, s) = f a s
  continued f (err e, s) = (err e, s)

  infixl 5 ◌>>=◌ ◌>>◌
  abbrev pub ◌>>=◌ : {A B : Type 0} → Step A → (A → Step B) → Step B
  m >>= f = λ s. continued f (m s)

  abbrev pub ◌>>◌ : {A B : Type 0} → Step A → Step B → Step B
  m >> k = m >>= λ _. k

  abbrev pub outside :
      App → Outcome (Unit {0}) (Unit {0}) × D.World → Outcome Stop (Unit {0}) × (App × D.World)
  outside a (r, w) = (map_err (λ _. failed) r, (a, w))

  abbrev pub told : App → Bool × D.World → Outcome Stop (Unit {0}) × (App × D.World)
  told a (true, w) = (ok tt, (a, w))
  told a (false, w) = (ok tt, (record a { windowed_error = true }, w))

  abbrev pub change : (App → App) → Step (Unit {0})
  change f (a, w) = (ok tt, (f a, w))

  abbrev pub change_state : (State → State) → Step (Unit {0})
  change_state f = change (λ a. record a { state = f a.state })

  -- `save_config`
  unfoldable pub save_config : Step (Unit {0})
  unfolding to_ini to_config
  save_config = do
    _ ← λ (a, w). outside a (D.write_to_file (to_ini I (to_config a.state)) w)
    λ (a, w). told a (D.send (to_config a.state) w)

  unfoldable pub save_credentials : GuiInstance → Step (Unit {0})
  save_credentials g (a, w) = outside a (D.set_password g.name g.password w)

  abbrev pub checked : GuiInstance → List (Text × Complaint) → Step (Unit {0})
  checked g [] = do _ ← λ (a, w). outside a (D.spawn_updater g w); change (updating_too g)
  checked g (e ∷ errors) =
      change (λ a. record a { instance_errors = a.instance_errors ++ (e ∷ errors) })

  unfoldable pub check_instance_credentials : GuiInstance → Step (Unit {0})
  unfolding complaints
  check_instance_credentials g = do
    _ ← change (λ a. record a { instance_errors = forgotten g.name a.instance_errors })
    checked g (complaints g)

  -- The part of an accepted instance that changes the window: the instance with its name.
  unfoldable pub enter_instance : GuiInstance → Step GuiInstance
  unfolding with_instance update_instance clear_add_instance_panel list_eq nat_eq
  enter_instance g (a, w) = elim (g.name == []) [
    | true ↦ elim (with_instance (renamed g) a.state) [
      | none ↦ (err panic, (a, w))
      | some s ↦ (ok (renamed g), (shown_instance (some s) a, w))
    ]
    | false ↦ (ok g, (record a { state = update_instance g a.state }, w))
  ]

  -- The body of the loop of `react`.
  unfoldable pub react_to : Event → Step (Unit {0})
  unfolding save_config save_credentials check_instance_credentials enter_instance
      update_gui_instance_workspaces update_instance_selected_workspaces
  react_to global_configuration_updated = save_config
  react_to (instance_credentials_updated g) = check_instance_credentials g
  react_to (validate_new_instance g) = check_instance_credentials g
  react_to (instance_credentials_accepted g) = do
    g' ← enter_instance g
    _ ← save_credentials g'
    _ ← save_config
    λ (a, w). outside a (D.spawn_grabber g' w)
  react_to (instance_credentials_refused g) =
      change (λ a. complained g.name invalid_credentials (done_updating g.name a))
  react_to (instance_credentials_failed g) =
      change (λ a. complained g.name reported (done_updating g.name a))
  react_to (instance_workspaces_retrieved_success id workspaces) = do
    _ ← change (done_updating id)
    change_state (update_gui_instance_workspaces id workspaces)
  react_to (instance_workspaces_retrieved_failure id) =
      change (λ a. complained id reported (done_updating id a))
  react_to (instance_selected_workspaces_validated g) = do
    _ ← change_state (update_instance_selected_workspaces g)
    save_config
  react_to (delete_instance_wanted id) = change (λ a. record a { delete_instance = some id })

  -- `App::react`
  unfoldable pub react : List Event → Step (Unit {0})
  unfolding react_to
  react [] = change (λ a. a)
  react (event ∷ events) = do _ ← react_to event; react events

  -- An error is shown; a panic is none.
  abbrev pub caught :
      Outcome Stop (Unit {0}) × (App × D.World) → Outcome Stop (Unit {0}) × (App × D.World)
  caught (err failed, (a, w)) = (ok tt, (record a { windowed_error = true }, w))
  caught (err panic, s) = (err panic, s)
  caught (ok _, s) = (ok tt, s)

  -- A deletion that is confirmed; the window stays open where the configuration cannot be saved.
  unfoldable pub deletion : Text → Step (Unit {0})
  unfolding remove_instance save_config
  deletion id = do
    _ ← change_state (remove_instance id)
    _ ← save_config
    change (λ a. record a { delete_instance = none })

  unfoldable pub deletion_window : Frame → Step (Unit {0})
  unfolding deletion
  deletion_window f (a, w) = elim a.delete_instance [
    | none ↦ (ok tt, (a, w))
    | some id ↦ elim f.confirm_deletion [
      | true ↦ deletion id (a, w)
      | false ↦
          (ok tt, (record a { delete_instance = if f.close_deletion then none else some id }, w))
    ]
  ]

  -- `App::update`
  unfoldable pub update : Frame → Step (Unit {0})
  unfolding draw react error_window deletion_window
  update f (a, w) =
      (do
        _ ← λ s. caught (react (draw f a).0 s)
        _ ← change (error_window f)
        λ s. caught (deletion_window f s))
        ((draw f a).1, w)

  -- The frames that the window goes through; a panic ends them.
  unfoldable pub updates : List Frame → Step (Unit {0})
  unfolding update
  updates [] = change (λ a. a)
  updates (f ∷ frames) = do _ ← update f; updates frames

  -- `App::start`: a thread for each instance asks for its spaces.
  unfoldable pub start : List Instance → Step (Unit {0})
  unfolding gui_instance
  start [] = change (λ a. a)
  start (i ∷ instances) = do
    _ ← change (λ a. record a { updating = a.updating ++ (i.name ∷ []) })
    _ ← λ (a, w). outside a (D.spawn_grabber (gui_instance i) w)
    start instances
