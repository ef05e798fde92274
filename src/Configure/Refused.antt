-- ===== src/Configure/Refused.antt =====
-- configure/src/app.rs: a new instance whose password the key ring refuses.
use trsync.Base.{◌≡◌, refl, true, some, List, [], ◌∷◌, ◌++◌, ok, err, ◌==◌, nat_eq, list_eq}
use trsync.Core.Config.{Ini}
use trsync.Configure.{GuiInstance, State, instance_of}
use trsync.Configure.App.{Event, instance_credentials_accepted, App, failed, Desktop, with_instance}
use trsync.Configure.Window.{renamed, shown_instance}
use trsync.Configure.React.{enter_instance, save_credentials, react_to, react}
use trsync.Configure.Panels.{Matches, with_instance-Matches}

module _ {I : Ini} (D : Desktop I) where
  enter_instance-new :
      (g : GuiInstance) (a : App) (w : D.World) (s : State)
      → (g.name == []) ≡ true
      → with_instance (renamed g) a.state ≡ some s
      → enter_instance D g (a, w) ≡ (ok (renamed g), (shown_instance (some s) a, w))
  unfolding enter_instance list_eq nat_eq
  enter_instance-new g a w s n e = rw (enter_instance, n, e) refl

  -- Where the panels are those of the instances and the key ring refuses the password of a new instance, the
  -- window shows the instance behind the others, but it is neither written nor sent, no thread is started, and the
  -- events behind this one are lost.
  pub react-refused_password :
      (g : GuiInstance) (events : List Event) (a : App) (w w' : D.World)
      → Matches a.state
      → (g.name == []) ≡ true
      → D.set_password g.address g.password w ≡ (err tt, w')
      → (s : State) × (react D (instance_credentials_accepted g ∷ events) (a, w)
          ≡ (err failed, (shown_instance (some s) a, w')))
        × Matches s
        × (s.instances ≡ a.state.instances ++ (instance_of (renamed g) ∷ []))
  unfolding react react_to save_credentials
  react-refused_password g events a w w' m n refused =
      let (s, e, m', added) = with_instance-Matches (renamed g) a.state m in
      (
        s,
        rw (react, react_to, enter_instance-new g a w s n e, save_credentials, refused) refl,
        m',
        added,
      )
