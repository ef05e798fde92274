-- ===== src/Configure/Jobs/Done.antt =====
-- configure/src/job with configure/src/app.rs: the window waits for a server until a job has answered.
use trsync.Base.{
  ℕ, false, none, some, Option, List, Outcome, ok, err, ◌≡◌, ◌⊎◌, inl, inr, refl, contains, nat_eq,
  list_eq, contains-without_self,
}
use trsync.Core.Json.{Json}
use trsync.Core.Config.{Ini}
use trsync.Core.Error.{TracimClientError}
use trsync.Core.Instance.{Workspace}
use trsync.Core.Client.Account.{Http}
use trsync.Configure.{GuiInstance}
use trsync.Configure.App.{App, Event, Desktop, instance_credentials_accepted}
use trsync.Configure.React.{react_to}
use trsync.Configure.Jobs.{of_check, of_grab, update_credentials, grab_workspaces}

module _ {I : Ini} (D : Desktop I) {J : Json} (H : Http J) where
  -- The reaction to the event succeeds, does nothing outside and ends the waiting for the instance.
  abbrev pub Done : GuiInstance → Event → App → D.World → Type 0
  Done g event a d =
      (a' : App) × (react_to D event (a, d) ≡ (ok tt, (a', d)))
      × (contains a'.updating g.name ≡ false)

  of_grab-Done :
      (g : GuiInstance) (r : Outcome TracimClientError (List Workspace)) (a : App) (d : D.World)
      → Done g (of_grab H g r) a d
  unfolding react_to
  of_grab-Done g (ok spaces) a d = (_, refl, contains-without_self g.name a.updating)
  of_grab-Done g (err e) a d = (_, refl, contains-without_self g.name a.updating)

  of_check-Done :
      (g : GuiInstance) (r : Outcome TracimClientError (Option ℕ)) (a : App) (d : D.World)
      → (of_check H g r ≡ instance_credentials_accepted g) ⊎ Done g (of_check H g r) a d
  unfolding react_to
  of_check-Done g (ok (some id)) a d = inl refl
  of_check-Done g (ok none) a d = inr (_, refl, contains-without_self g.name a.updating)
  of_check-Done g (err e) a d = inr (_, refl, contains-without_self g.name a.updating)

  -- Whatever the server answers, the waiting of the window ends with the spaces or their failure, and with
  -- the credentials unless they are accepted.
  jobs-Done :
      (g : GuiInstance) (w : H.World) (a : App) (d : D.World)
      → (((update_credentials H g w).0 ≡ instance_credentials_accepted g)
          ⊎ Done g (update_credentials H g w).0 a d)
        × Done g (grab_workspaces H g w).0 a d
  unfolding update_credentials grab_workspaces
  jobs-Done g w a d = (of_check-Done g _ a d, of_grab-Done g _ a d)
