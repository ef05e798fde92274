-- ===== src/Core/Client/Account.antt =====
-- core/src/client.rs: `Client`, with which the configuration window asks a server for an account and its spaces.
use Prim.Native.Nat.{◌%◌, ◌^◌}
use trsync.Base.{
  ℕ, Option, none, some, List, [], ◌∷◌, ◌++◌, Outcome, ok, err, ◌>>=◌, map_err, ok_or, ◌==◌, nat_eq,
  if◌then◌else◌,
}
use trsync.Base.Lines.{Text}
use trsync.Core.Json.{Json}
use trsync.Core.Error.{TracimClientError, unknown, invalid_response, authentication_error}
use trsync.Core.Client.{ReqwestError, from_reqwest, Piece, word, number}
use trsync.Core.Instance.{Workspace}

-- The HTTP library: whether a client can be built, and what becomes of a request with its address, user and
-- password.
pub record Http (J : Json) : Type 1 where
  pub World : Type 0
  pub Response : Type 0
  pub build : Outcome ReqwestError (Unit {0})
  pub send : List Piece → Text → Text → World → Outcome ReqwestError Response × World
  pub status : Response → ℕ
  pub json_of : Response → Outcome ReqwestError J.Value
  pub workspaces_of : Response → Outcome ReqwestError (List Workspace)

pub record Client : Type 0 where
  pub address : List Piece
  pub username : Text
  pub password : Text

module _ {J : Json} (H : Http J) where
  abbrev reqwest : {A : Type 0} → Outcome ReqwestError A → Outcome TracimClientError A
  reqwest r = map_err from_reqwest r

  -- `Client::new`
  unfoldable pub new : List Piece → Text → Text → Outcome TracimClientError Client
  unfolding from_reqwest
  new address username password = do
    _ ← reqwest H.build
    ok (record { address = address; username = username; password = password })

  -- An identifier is cut to 32 bits; a refusal of the credentials is no error.
  user_of : H.Response → Outcome TracimClientError (Option ℕ)
  unfolding from_reqwest
  user_of response =
      if H.status response == 200
      then (do
        value ← reqwest (H.json_of response)
        user_id ← ok_or (J.as_i64 (J.index value "user_id")) invalid_response
        ok (some (user_id % 2 ^ 32)))
      else ok none

  unfoldable pub check_credentials :
      Client → H.World → Outcome TracimClientError (Option ℕ) × H.World
  unfolding user_of from_reqwest
  check_credentials c w =
      let (r, w') = H.send (c.address ++ (word "/auth/whoami" ∷ [])) c.username c.password w in
      ((do response ← reqwest r; user_of response), w')

  listed : H.Response → Outcome TracimClientError (List Workspace)
  unfolding from_reqwest
  listed response =
      if H.status response == 200 then reqwest (H.workspaces_of response) else err unknown

  of_user :
      Client
      → Outcome TracimClientError (Option ℕ)
      → H.World
      → Outcome TracimClientError (List Workspace) × H.World
  unfolding listed from_reqwest
  of_user c (err e) w = (err e, w)
  of_user c (ok none) w = (err authentication_error, w)
  of_user c (ok (some user_id)) w =
      let (r, w') =
        H.send (c.address ++ (word "/users/" ∷ number user_id ∷ word "/workspaces" ∷ [])) c.username
          c.password w in
      ((do response ← reqwest r; listed response), w')

  unfoldable pub workspaces :
      Client → H.World → Outcome TracimClientError (List Workspace) × H.World
  unfolding check_credentials of_user
  workspaces c w = let (r, w') = check_credentials c w in of_user c r w'
