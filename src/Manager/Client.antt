-- ===== src/Manager/Client.antt =====
-- manager/src/client.rs: how the daemon asks the server for a space. The HTTP library is a parameter.
use trsync.Base.{ℕ, List, [], ◌∷◌, Outcome, err, ◌>>=◌, map_err, ◌==◌, nat_eq, if◌then◌else◌}
use trsync.Base.Lines.{Text}
use trsync.Core.Client.{ReqwestError, Piece, word, number}
use trsync.Core.Config.{Instance}
use trsync.Core.Instance.{Workspace, url}

pub data ClientError : Type 0 where
  request_error unauthorized unexpected_response : ClientError

-- Whether a client can be built, and what becomes of a request with its address, user and password.
pub record Web : Type 1 where
  pub Response : Type 0
  pub build : Outcome ReqwestError (Unit {0})
  pub send : List Piece → Text → Text → Outcome ReqwestError Response
  pub status : Response → ℕ
  pub json_of : Response → Outcome ReqwestError Workspace
  pub text_of : Response → Outcome ReqwestError Text

abbrev requested : {A : Type 0} → Outcome ReqwestError A → Outcome ClientError A
requested r = map_err (λ e. request_error) r

unfoldable pub workspace_url : Instance → ℕ → List Piece
unfolding url
workspace_url instance_ workspace_id =
    url instance_.unsecure instance_.address (word "/workspaces/" ∷ number workspace_id ∷ [])

module _ (W : Web) where
  abbrev workspace_of : W.Response → Outcome ClientError Workspace
  workspace_of response =
      if W.status response == 200
      then requested (W.json_of response)
      else if W.status response == 401
      then err unauthorized
      else (do _ ← requested (W.text_of response); err unexpected_response)

  unfoldable pub get_workspace : Instance → ℕ → Outcome ClientError Workspace
  unfolding workspace_url
  get_workspace instance_ workspace_id = do
    response ←
        requested
          (W.send (workspace_url instance_ workspace_id) instance_.username instance_.password)
    workspace_of response
