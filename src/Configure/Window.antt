-- ===== src/Configure/Window.antt =====
-- configure/src/app.rs: the parts of the configuration window's methods that change nothing outside, and what the
-- user does to it.
use trsync.Base.{
  Bool, true, false, not, Option, none, some, List, [], ◌∷◌, ◌++◌, filter, without, ◌==◌, nat_eq,
  list_eq,
}
use trsync.Base.Lines.{Text}
use trsync.Core.Config.{is_blank}
use trsync.Configure.{GuiInstance, Panel, State}
use trsync.Configure.App.{
  Event, Complaint, missing_address, missing_username, missing_password, App,
  clear_add_instance_panel,
}

abbrev complaint : Text → Complaint → Bool → List (Text × Complaint)
complaint name c true = (name, c) ∷ []
complaint name c false = []

unfoldable pub complaints : GuiInstance → List (Text × Complaint)
unfolding is_blank
complaints g =
    complaint g.name missing_address (is_blank g.address)
    ++ (complaint g.name missing_username (is_blank g.username)
        ++ complaint g.name missing_password (is_blank g.password))

abbrev pub forgotten : Text → List (Text × Complaint) → List (Text × Complaint)
forgotten name = filter (λ (e : Text × Complaint). not (e.0 == name))

abbrev pub updating_too : GuiInstance → App → App
updating_too g a = record a { updating = a.updating ++ (g.name ∷ []) }

abbrev pub renamed : GuiInstance → GuiInstance
renamed g = record g { name = g.address }

abbrev pub shown_instance : Option State → App → App
shown_instance none a = a
shown_instance (some s) a = record a {
  state = record s { current_panel = clear_add_instance_panel s.current_panel };
  updating = without [] a.updating;
}

abbrev pub done_updating : Text → App → App
done_updating id a = record a { updating = without id a.updating }

abbrev pub complained : Text → Complaint → App → App
complained id c a = record a { instance_errors = a.instance_errors ++ ((id, c) ∷ []) }

-- What the user does while a frame is drawn: the open panel with its texts and check boxes, the settings, the
-- buttons that send events, and those of the two windows.
pub record Frame : Type 0 where
  pub received : List Event
  pub current_panel : Panel
  pub base_folder : Text
  pub confirm_startup_sync : Bool
  pub popup_confirm_startup_sync : Bool
  pub clicked : List Event
  pub close_error : Bool
  pub confirm_deletion : Bool
  pub close_deletion : Bool

abbrev pub drawn : Frame → State → State
drawn f s = record s {
  current_panel = f.current_panel;
  base_folder = f.base_folder;
  confirm_startup_sync = f.confirm_startup_sync;
  popup_confirm_startup_sync = f.popup_confirm_startup_sync;
}

-- The panels are drawn only where no window is open.
abbrev pub no_window : App → Bool
no_window a = elim a.delete_instance [ none ↦ not a.windowed_error | some _ ↦ false ]

unfoldable pub draw : Frame → App → List Event × App
draw f a = elim (no_window a) [
  | true ↦ (f.received ++ f.clicked, record a { state = drawn f a.state })
  | false ↦ (f.received, a)
]

unfoldable pub error_window : Frame → App → App
error_window f a = elim (a.windowed_error) [
  | true ↦ record a { windowed_error = not f.close_error }
  | false ↦ a
]
