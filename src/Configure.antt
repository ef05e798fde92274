-- ===== src/Configure.antt =====
-- configure/src/panel and configure/src/state.rs: the panels of the configuration window and what it keeps. What
-- is drawn is left out.
pub mod App
pub mod Window
pub mod React
pub mod Panels
pub mod Kept
pub mod Told
pub mod Refused
pub mod Jobs
use trsync.Base.{
  ℕ, Bool, true, false, not, Option, none, some, List, [], ◌∷◌, ◌++◌, map, filter, contains, ◌==◌,
  nat_eq, list_eq, if◌then◌else◌,
}
use trsync.Base.Lines.{Text, ltb}
use trsync.Core.Config.{Instance, ManagerConfig}
use trsync.Core.Instance.{Workspace}

-- A check box: whether it is checked, the space and its label.
pub record Checkbox : Type 0 where
  pub checked : Bool
  pub workspace_id : ℕ
  pub label : Text

pub record GuiInstance : Type 0 where
  pub name : Text
  pub address : Text
  pub unsecure : Bool
  pub username : Text
  pub password : Text
  pub workspaces : Option (List Workspace)
  pub workspaces_ids_checkboxes : List Checkbox

-- `impl Default for GuiInstance`
unfoldable pub default : GuiInstance
default = record {
  name = [];
  address = [];
  unsecure = false;
  username = [];
  password = [];
  workspaces = none;
  workspaces_ids_checkboxes = [];
}

-- The order of texts.
text_leb : Text → Text → Bool
text_leb [] t = true
text_leb (c ∷ s) [] = false
text_leb (c ∷ s) (d ∷ t) = if c == d then text_leb s t else ltb c d

insert_sorted : Checkbox → List Checkbox → List Checkbox
unfolding text_leb
insert_sorted b [] = b ∷ []
insert_sorted b (c ∷ rest) =
    if text_leb b.label c.label then b ∷ c ∷ rest else c ∷ insert_sorted b rest

-- `sort_by` the labels, which keeps the order of equal ones
sorted_by_label : List Checkbox → List Checkbox
unfolding insert_sorted
sorted_by_label [] = []
sorted_by_label (b ∷ rest) = insert_sorted b (sorted_by_label rest)

checkboxes : List ℕ → Option (List Workspace) → List Checkbox
checkboxes selected none = []
checkboxes selected (some workspaces) =
    map
      (λ (w : Workspace). record {
        checked = contains selected w.workspace_id;
        workspace_id = w.workspace_id;
        label = w.label;
      })
      workspaces

unfoldable pub rebuild_workspaces_ids_checkboxes : List ℕ → GuiInstance → GuiInstance
unfolding checkboxes sorted_by_label
rebuild_workspaces_ids_checkboxes selected_workspaces g = record g {
  workspaces_ids_checkboxes = sorted_by_label (checkboxes selected_workspaces g.workspaces);
}

unfoldable pub selected_workspace_ids : GuiInstance → List ℕ
selected_workspace_ids g =
    map (λ (b : Checkbox). b.workspace_id)
      (filter (λ (b : Checkbox). b.checked) g.workspaces_ids_checkboxes)

-- `impl From<&Instance> for GuiInstance`, by `GuiInstance::new`
unfoldable pub gui_instance : Instance → GuiInstance
unfolding rebuild_workspaces_ids_checkboxes
gui_instance i = rebuild_workspaces_ids_checkboxes i.workspaces_ids (record {
  name = i.name;
  address = i.address;
  unsecure = i.unsecure;
  username = i.username;
  password = i.password;
  workspaces = none;
  workspaces_ids_checkboxes = [];
})

-- `impl From<GuiInstance> for Instance`
unfoldable pub instance_of : GuiInstance → Instance
unfolding selected_workspace_ids
instance_of g = record {
  name = g.name;
  address = g.address;
  unsecure = false;
  username = g.username;
  password = g.password;
  workspaces_ids = selected_workspace_ids g;
}

pub data Panel : Type 0 where
  root : Panel
  of_instance : GuiInstance → Panel
  add_instance : GuiInstance → Panel

pub record State : Type 0 where
  pub current_panel : Panel
  pub available_panels : List Panel
  pub base_folder : Text
  pub icons_path : Option Text
  pub confirm_startup_sync : Bool
  pub popup_confirm_startup_sync : Bool
  pub instances : List Instance

unfoldable pub from_config : ManagerConfig → State
unfolding gui_instance default
from_config config = record {
  current_panel = root;
  available_panels =
      root
      ∷ (map (λ (i : Instance). of_instance (gui_instance i)) config.instances
          ++ (add_instance default ∷ []));
  base_folder = config.local_folder;
  icons_path = config.icons_path;
  confirm_startup_sync = config.confirm_startup_sync;
  popup_confirm_startup_sync = config.popup_confirm_startup_sync;
  instances = config.instances;
}

unfoldable pub to_config : State → ManagerConfig
to_config s = record {
  local_folder = s.base_folder;
  icons_path = s.icons_path;
  instances = s.instances;
  allow_raw_passwords = false;
  confirm_startup_sync = s.confirm_startup_sync;
  popup_confirm_startup_sync = s.popup_confirm_startup_sync;
}

abbrev pub has_name : Text → Panel → Bool
has_name name root = false
has_name name (of_instance g) = g.name == name
has_name name (add_instance g) = false

unfoldable pub remove_instance : Text → State → State
remove_instance instance_id s = record s {
  available_panels = filter (λ p. not (has_name instance_id p)) s.available_panels;
  instances = filter (λ (i : Instance). not (i.name == instance_id)) s.instances;
  current_panel = root;
}
