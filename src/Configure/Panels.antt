-- ===== src/Configure/Panels.antt =====
-- configure/src/app.rs: the panels that the configuration window offers are those of its instances.
use trsync.Base.{
  Bool, not, ◌≡◌, refl, sym, ap, ◌∙◌, some, List, [], ◌∷◌, ◌++◌, map, filter, arith, ◌==◌, nat_eq,
  list_eq,
}
use mathlib.Core.List.{append_assoc, map-append}
use trsync.Base.Lines.{Text}
use trsync.Core.Config.{Instance, ManagerConfig}
use trsync.Core.Instance.{Workspace}
use trsync.Configure.{
  GuiInstance, default, gui_instance, instance_of, Panel, root, of_instance, add_instance, has_name,
  State, from_config, rebuild_workspaces_ids_checkboxes, remove_instance,
}
use trsync.Configure.App.{
  update_first, update_panel, cleared, clear_first_form, insert_before_last, with_instance,
  update_instance, update_gui_instance_workspaces, update_instance_selected_workspaces,
}

abbrev pub panels : List GuiInstance → GuiInstance → List Panel
panels gs form = root ∷ (map of_instance gs ++ (add_instance form ∷ []))

abbrev pub gui_names : List GuiInstance → List Text
gui_names = map (λ (g : GuiInstance). g.name)

abbrev pub names : List Instance → List Text
names = map (λ (i : Instance). i.name)

-- The panels are the one of the settings, one for each instance in their order, and the form for a new one.
abbrev pub Matches : State → Type 0
Matches s =
    (gs : List GuiInstance) × (form : GuiInstance) × (s.available_panels ≡ panels gs form)
    × (gui_names gs ≡ names s.instances)

insert_before_last-append :
    (p last : Panel) (ps : List Panel)
    → insert_before_last p (ps ++ (last ∷ [])) ≡ some (ps ++ (p ∷ last ∷ []))
unfolding insert_before_last
insert_before_last-append p last [] = refl
insert_before_last-append p last (q ∷ []) = refl
insert_before_last-append p last (q ∷ r ∷ ps) =
    rw (insert_before_last, insert_before_last-append p last (r ∷ ps)) refl

insert_before_last-panels :
    (g form : GuiInstance) (gs : List GuiInstance)
    → insert_before_last (of_instance g) (panels gs form) ≡ some (panels (gs ++ (g ∷ [])) form)
insert_before_last-panels g form gs =
    insert_before_last-append (of_instance g) (add_instance form) (root ∷ map of_instance gs)
    ∙ ap (λ ps. some (root ∷ ps))
        (sym (append_assoc (map of_instance gs) (of_instance g ∷ []) (add_instance form ∷ []))
          ∙ ap (λ ps. ps ++ (add_instance form ∷ [])) (sym (map-append of_instance gs (g ∷ []))))

clear_first_form-panels :
    (gs : List GuiInstance) (form : GuiInstance)
    → clear_first_form (map of_instance gs ++ (add_instance form ∷ []))
      ≡ map of_instance gs ++ (add_instance (cleared form) ∷ [])
unfolding clear_first_form
clear_first_form-panels [] form = refl
clear_first_form-panels (g ∷ gs) form = ap (◌∷◌ (of_instance g)) (clear_first_form-panels gs form)

module _ (p : GuiInstance → Bool) (f : GuiInstance → GuiInstance) where
  update_panel-panels :
      (gs : List GuiInstance) (form : GuiInstance)
      → update_panel p f (map of_instance gs ++ (add_instance form ∷ []))
        ≡ map of_instance (update_first p f gs) ++ (add_instance form ∷ [])
  update_panel-panels [] form = refl
  update_panel-panels (g ∷ gs) form = ground (arith, update_panel-panels gs form)

  gui_names-update_first :
      ((g : GuiInstance) → (f g).name ≡ g.name)
      → (gs : List GuiInstance) → gui_names (update_first p f gs) ≡ gui_names gs
  gui_names-update_first keeps [] = refl
  gui_names-update_first keeps (g ∷ gs) = ground (arith, keeps g, gui_names-update_first keeps gs)

names-update_first :
    (p : Instance → Bool) (f : Instance → Instance)
    → ((i : Instance) → (f i).name ≡ i.name)
    → (is : List Instance) → names (update_first p f is) ≡ names is
names-update_first p f keeps [] = refl
names-update_first p f keeps (i ∷ is) = ground (arith, keeps i, names-update_first p f keeps is)

module _ (id : Text) where
  abbrev other : Text → Bool
  other name = not (name == id)

  filter-panels :
      (gs : List GuiInstance) (form : GuiInstance)
      → filter (λ p. not (has_name id p)) (map of_instance gs ++ (add_instance form ∷ []))
        ≡ map of_instance (filter (λ (g : GuiInstance). other g.name) gs)
          ++ (add_instance form ∷ [])
  filter-panels [] form = refl
  filter-panels (g ∷ gs) form = ground (arith, filter-panels gs form)

  gui_names-filter :
      (gs : List GuiInstance)
      → gui_names (filter (λ (g : GuiInstance). other g.name) gs) ≡ filter other (gui_names gs)
  gui_names-filter [] = refl
  gui_names-filter (g ∷ gs) = ground (arith, gui_names-filter gs)

  names-filter :
      (is : List Instance)
      → names (filter (λ (i : Instance). other i.name) is) ≡ filter other (names is)
  names-filter [] = refl
  names-filter (i ∷ is) = ground (arith, names-filter is)

names-gui_instance : (is : List Instance) → gui_names (map gui_instance is) ≡ names is
unfolding gui_instance rebuild_workspaces_ids_checkboxes
names-gui_instance [] = refl
names-gui_instance (i ∷ is) = ap (◌∷◌ i.name) (names-gui_instance is)

shown_first :
    (is : List Instance)
    → map (λ (i : Instance). of_instance (gui_instance i)) is
      ≡ map of_instance (map gui_instance is)
shown_first [] = refl
shown_first (i ∷ is) = ap (◌∷◌ (of_instance (gui_instance i))) (shown_first is)

pub from_config-Matches : (config : ManagerConfig) → Matches (from_config config)
unfolding from_config
from_config-Matches config = (
  map gui_instance config.instances,
  default,
  ap (λ l. root ∷ (l ++ (add_instance default ∷ []))) (shown_first config.instances),
  names-gui_instance config.instances,
)

pub with_instance-Matches :
    (g : GuiInstance) (s : State)
    → Matches s
    → (s' : State) × (with_instance g s ≡ some s')
      × Matches s'
      × (s'.instances ≡ s.instances ++ (instance_of g ∷ []))
unfolding with_instance instance_of clear_first_form
with_instance-Matches g s (gs, form, shown, same) = (
  record s {
    available_panels = panels (gs ++ (g ∷ [])) (cleared form);
    instances = s.instances ++ (instance_of g ∷ []);
  },
  rw
      (
        with_instance,
        shown,
        insert_before_last-panels g form gs,
        clear_first_form-panels (gs ++ (g ∷ [])) form,
      )
      refl,
  (
    gs ++ (g ∷ []),
    cleared form,
    refl,
    map-append (λ (g : GuiInstance). g.name) gs (g ∷ [])
        ∙ ap (λ l. l ++ (g.name ∷ [])) same
        ∙ sym (map-append (λ (i : Instance). i.name) s.instances (instance_of g ∷ [])),
  ),
  refl,
)

pub update_instance-Matches :
    (g : GuiInstance) (s : State) → Matches s → Matches (update_instance g s)
unfolding update_instance
update_instance-Matches g s (gs, form, shown, same) =
    (gs, form, shown, same ∙ sym (names-update_first _ _ (λ i. refl) s.instances))

pub update_gui_instance_workspaces-Matches :
    (id : Text) (workspaces : List Workspace) (s : State)
    → Matches s
    → Matches (update_gui_instance_workspaces id workspaces s)
unfolding update_gui_instance_workspaces rebuild_workspaces_ids_checkboxes
update_gui_instance_workspaces-Matches id workspaces s (gs, form, shown, same) = (
  _,
  form,
  ap (update_panel _ _) shown ∙ ap (◌∷◌ root) (update_panel-panels _ _ gs form),
  gui_names-update_first _ _ (λ g. refl) gs ∙ same,
)

pub update_instance_selected_workspaces-Matches :
    (g : GuiInstance) (s : State) → Matches s → Matches (update_instance_selected_workspaces g s)
unfolding update_instance_selected_workspaces rebuild_workspaces_ids_checkboxes
update_instance_selected_workspaces-Matches g s (gs, form, shown, same) = (
  _,
  form,
  ap (update_panel _ _) shown ∙ ap (◌∷◌ root) (update_panel-panels _ _ gs form),
  gui_names-update_first _ _ (λ h. refl) gs
      ∙ same
      ∙ sym (names-update_first _ _ (λ i. refl) s.instances),
)

pub remove_instance-Matches : (id : Text) (s : State) → Matches s → Matches (remove_instance id s)
unfolding remove_instance
remove_instance-Matches id s (gs, form, shown, same) = (
  _,
  form,
  ap (filter _) shown ∙ ap (◌∷◌ root) (filter-panels id gs form),
  gui_names-filter id gs ∙ ap (filter (other id)) same ∙ sym (names-filter id s.instances),
)
