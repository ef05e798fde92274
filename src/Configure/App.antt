-- ===== src/Configure/App.antt =====
-- configure/src/app.rs: how the configuration window reacts to its events. The key ring, the file, the channel to
-- the daemon and the threads are parameters.
use trsync.Base.{
  ℕ, Bool, false, Option, none, some, List, [], ◌∷◌, ◌++◌, find, Outcome, ◌==◌, nat_eq, list_eq,
  if◌then◌else◌,
}
use trsync.Base.Lines.{Text}
use trsync.Core.Config.{Instance, ManagerConfig, Ini}
use trsync.Core.Instance.{Workspace}
use trsync.Configure.{
  GuiInstance, rebuild_workspaces_ids_checkboxes, selected_workspace_ids, instance_of, Panel, root,
  of_instance, add_instance, State,
}

-- configure/src/event.rs; the texts of errors are left out.
pub data Event : Type 0 where
  global_configuration_updated : Event
  instance_credentials_updated validate_new_instance instance_credentials_accepted
        instance_credentials_refused instance_credentials_failed :
      GuiInstance → Event
  instance_workspaces_retrieved_success : Text → List Workspace → Event
  instance_workspaces_retrieved_failure : Text → Event
  instance_selected_workspaces_validated : GuiInstance → Event
  delete_instance_wanted : Text → Event

pub data Complaint : Type 0 where
  missing_address missing_username missing_password invalid_credentials reported : Complaint

pub record App : Type 0 where
  pub state : State
  pub windowed_error : Bool
  pub instance_errors : List (Text × Complaint)
  pub updating : List Text
  pub delete_instance : Option Text

unfoldable pub new : State → App
new state = record {
  state = state;
  windowed_error = false;
  instance_errors = [];
  updating = [];
  delete_instance = none;
}

-- What ends a reaction early: an error, which is shown, or a panic.
pub data Stop : Type 0 where
  failed panic : Stop

-- What the window does outside: each may fail. `send` says whether somebody listens.
pub record Desktop (I : Ini) : Type 1 where
  pub World : Type 0
  pub write_to_file : I.Conf → World → Outcome (Unit {0}) (Unit {0}) × World
  pub send : ManagerConfig → World → Bool × World
  pub set_password : Text → Text → World → Outcome (Unit {0}) (Unit {0}) × World
  pub spawn_grabber : GuiInstance → World → Outcome (Unit {0}) (Unit {0}) × World
  pub spawn_updater : GuiInstance → World → Outcome (Unit {0}) (Unit {0}) × World

-- The first one that meets the test is changed.
abbrev pub update_first : {A : Type 0} → (A → Bool) → (A → A) → List A → List A
update_first p f [] = []
update_first p f (x ∷ xs) = let rest = update_first p f xs in if p x then f x ∷ xs else x ∷ rest

abbrev pub update_panel :
    (GuiInstance → Bool) → (GuiInstance → GuiInstance) → List Panel → List Panel
update_panel p f [] = []
update_panel p f (root ∷ rest) = root ∷ update_panel p f rest
update_panel p f (add_instance g ∷ rest) = add_instance g ∷ update_panel p f rest
update_panel p f (of_instance g ∷ rest) =
    let more = update_panel p f rest in
    if p g then of_instance (f g) ∷ rest else of_instance g ∷ more

abbrev pub cleared : GuiInstance → GuiInstance
cleared g = record g { address = []; username = []; password = [] }

unfoldable pub clear_first_form : List Panel → List Panel
clear_first_form [] = []
clear_first_form (root ∷ rest) = root ∷ clear_first_form rest
clear_first_form (of_instance g ∷ rest) = of_instance g ∷ clear_first_form rest
clear_first_form (add_instance g ∷ rest) = add_instance (cleared g) ∷ rest

-- `insert` at the length less one; of no panels it is a panic.
unfoldable pub insert_before_last : Panel → List Panel → Option (List Panel)
insert_before_last p [] = none
insert_before_last p (last ∷ []) = some (p ∷ last ∷ [])
insert_before_last p (q ∷ next ∷ rest) = elim (insert_before_last p (next ∷ rest)) [
  | none ↦ none
  | some panels ↦ some (q ∷ panels)
]

-- `add_instance`, for the instance with its new name
unfoldable pub with_instance : GuiInstance → State → Option State
unfolding insert_before_last clear_first_form instance_of
with_instance g s = elim (insert_before_last (of_instance g) s.available_panels) [
  | none ↦ none
  | some panels ↦ some (record s {
    available_panels = clear_first_form panels;
    instances = s.instances ++ (instance_of g ∷ []);
  })
]

unfoldable pub update_instance : GuiInstance → State → State
update_instance g s = record s {
  instances =
      update_first (λ (i : Instance). i.name == g.name)
        (λ (i : Instance). record i {
          address = g.address;
          username = g.username;
          password = g.password;
        })
        s.instances;
}

abbrev workspaces_of : Option Instance → List ℕ
workspaces_of none = []
workspaces_of (some i) = i.workspaces_ids

unfoldable pub update_gui_instance_workspaces : Text → List Workspace → State → State
unfolding rebuild_workspaces_ids_checkboxes
update_gui_instance_workspaces id workspaces s = record s {
  available_panels =
      update_panel (λ g. g.name == id)
        (λ g.
          rebuild_workspaces_ids_checkboxes
            (workspaces_of (find (λ (i : Instance). i.name == id) s.instances))
            (record g { workspaces = some workspaces }))
        s.available_panels;
}

unfoldable pub update_instance_selected_workspaces : GuiInstance → State → State
unfolding rebuild_workspaces_ids_checkboxes selected_workspace_ids
update_instance_selected_workspaces g s = record s {
  instances =
      update_first (λ (i : Instance). i.name == g.name)
        (λ (i : Instance). record i { workspaces_ids = selected_workspace_ids g }) s.instances;
  available_panels =
      update_panel (λ h. h.name == g.name)
        (rebuild_workspaces_ids_checkboxes (selected_workspace_ids g)) s.available_panels;
}

unfoldable pub clear_add_instance_panel : Panel → Panel
clear_add_instance_panel (add_instance g) = add_instance (cleared g)
clear_add_instance_panel root = root
clear_add_instance_panel (of_instance g) = of_instance g
