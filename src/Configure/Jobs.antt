-- ===== src/Configure/Jobs.antt =====
-- configure/src/job: the threads of the window that ask a server, and what they answer to it.
pub mod Done
use trsync.Base.{ℕ, Option, none, some, List, [], Outcome, ok, err}
use trsync.Core.Json.{Json}
use trsync.Core.Error.{TracimClientError}
use trsync.Core.Instance.{Workspace, url}
use trsync.Core.Client.{Piece}
use trsync.Core.Client.Account.{Http, Client, new, check_credentials, workspaces}
use trsync.Configure.{GuiInstance}
use trsync.Configure.App.{
  Event, instance_credentials_accepted, instance_credentials_refused, instance_credentials_failed,
  instance_workspaces_retrieved_success, instance_workspaces_retrieved_failure,
}

module _ {J : Json} (H : Http J) where
  client_of : GuiInstance → Outcome TracimClientError Client
  unfolding new url
  client_of g = new H (url g.unsecure g.address []) g.username g.password

  -- A request of a client that can be built.
  asked :
      {A : Type 0}
      → (Client → H.World → Outcome TracimClientError A × H.World)
      → GuiInstance
      → H.World
      → Outcome TracimClientError A × H.World
  unfolding client_of
  asked request g w = elim (client_of g) [ err e ↦ (err e, w) | ok client ↦ request client w ]

  abbrev pub of_check : GuiInstance → Outcome TracimClientError (Option ℕ) → Event
  of_check g (ok (some _)) = instance_credentials_accepted g
  of_check g (ok none) = instance_credentials_refused g
  of_check g (err _) = instance_credentials_failed g

  abbrev pub of_grab : GuiInstance → Outcome TracimClientError (List Workspace) → Event
  of_grab g (ok spaces) = instance_workspaces_retrieved_success g.name spaces
  of_grab g (err _) = instance_workspaces_retrieved_failure g.name

  -- `CredentialUpdater::execute`: the event that is sent
  unfoldable pub update_credentials : GuiInstance → H.World → Event × H.World
  unfolding asked check_credentials
  update_credentials g w = let (r, w') = asked (check_credentials H) g w in (of_check g r, w')

  -- `WorkspacesGrabber::execute`
  unfoldable pub grab_workspaces : GuiInstance → H.World → Event × H.World
  unfolding asked workspaces
  grab_workspaces g w = let (r, w') = asked (workspaces H) g w in (of_grab g r, w')
