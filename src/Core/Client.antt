-- ===== src/Core/Client.antt =====
-- core/src/client.rs: the requests that `Tracim` sends and what it makes of their answers. The HTTP library,
-- the decoding of JSON and the file system are parameters.
pub mod Calls
pub mod Files
pub mod Account
pub mod Live
pub mod Path
pub mod Refused
use trsync.Base.{
  ℕ, zero, suc, String, Bool, true, false, Option, none, some, List, [], ◌∷◌, ◌++◌, map, filter,
  find, Outcome, ok, err, map_err, ok_or, ◌==◌, nat_eq, string_eq, if◌then◌else◌,
}
use trsync.Base.Lines.{Text, codes}
use trsync.Core.Json.{Json, integer_of}
use trsync.Core.Label.{label, remove_text}
use trsync.Core.Content.{RemoteContent}
use trsync.Core.Error.{
  TracimClientError, content_not_found, content_already_exist, content_deleted_or_archived,
  connection_error, timeout_error, unknown, prepare_error, invalid_response, file_not_found,
}
use trsync.Core.Types.{
  ContentId, RevisionId, FileName, FilePath, ContentType, file, folder, html_document, to_string,
  from_str, content_type_eq, html_document_local_extension, file_name,
}

-- `TracimClientError::from_code`
unfoldable pub from_code : ℕ → Option TracimClientError
from_code error_code =
    if error_code == 1003
    then some content_not_found
    else if error_code == 3002
    then some content_already_exist
    else if error_code == 2044
    then some content_deleted_or_archived
    else none

-- `reqwest::Error`, by what the source asks of it
pub data ReqwestError : Type 0 where
  connect timeout other : ReqwestError

-- `impl From<reqwest::Error> for TracimClientError`
unfoldable pub from_reqwest : ReqwestError → TracimClientError
from_reqwest connect = connection_error
from_reqwest timeout = timeout_error
from_reqwest other = unknown

-- `ParentIdParameter`, with `from_value` and `to_parameter_value`
pub data ParentIdParameter : Type 0 where
  root : ParentIdParameter
  some_id : ContentId → ParentIdParameter

unfoldable pub from_value : Option ContentId → ParentIdParameter
from_value none = root
from_value (some id) = some_id id

unfoldable pub to_parameter_value : ParentIdParameter → ℕ
to_parameter_value root = 0
to_parameter_value (some_id id) = id

-- `ContentType::url_prefix`
unfoldable pub url_prefix : ContentType → String
url_prefix folder = "folders"
url_prefix file = "files"
url_prefix html_document = "html-documents"

pub data Method : Type 0 where
  get post put : Method

-- A text that `format!` puts together.
pub data Piece : Type 0 where
  word : String → Piece
  characters : Text → Piece
  number : ℕ → Piece

-- A member of a JSON object that is sent.
pub data Field : Type 0 where
  null : Field
  text : Text → Field
  integer : ℕ → Field
  texts : List String → Field

pub data Payload : Type 0 where
  no_payload : Payload
  json : List (String × Field) → Payload
  multipart : Option ContentId → FilePath → Payload

pub record Request : Type 0 where
  pub method : Method
  pub url : List Piece
  pub payload : Payload

-- `Paginated`
pub record Paginated : Type 0 where
  pub has_next : Bool
  pub items : List RemoteContent

-- What ends a call early: an error, or a panic.
pub data Failure : Type 0 where
  client : TracimClientError → Failure
  panic : Failure

module _ {W : Type 0} where
  abbrev continued :
      {A B : Type 0}
      → (A → W → Outcome Failure B × W)
      → Outcome Failure A × W
      → Outcome Failure B × W
  continued f (ok a, w) = f a w
  continued f (err e, w) = (err e, w)

  infixl 5 ◌>>=◌ ◌>>◌
  abbrev pub ◌>>=◌ :
      {A B : Type 0}
      → (W → Outcome Failure A × W)
      → (A → W → Outcome Failure B × W)
      → W
      → Outcome Failure B × W
  m >>= f = λ w. continued f (m w)

  abbrev pub ◌>>◌ :
      {A B : Type 0}
      → (W → Outcome Failure A × W)
      → (W → Outcome Failure B × W)
      → W
      → Outcome Failure B × W
  m >> k = m >>= λ _. k

-- What the client uses and does not implement, and its own fields. The credentials and the texts of
-- errors are left out.
pub record Server (J : Json) : Type 1 where
  pub World : Type 0
  pub Response : Type 0
  pub base_address : String
  pub workspace_id : ℕ
  pub status : Response → ℕ
  pub json_of : Response → Outcome ReqwestError J.Value
  pub content_of : Response → Outcome ReqwestError RemoteContent
  pub page_of : Response → Outcome ReqwestError Paginated
  pub send : Request → World → Outcome ReqwestError Response × World
  -- the client with a longer time-out
  pub build_client : World → Outcome ReqwestError (Unit {0})
  -- whether the file of a form can be opened, the text of a file, the body in a text
  pub open_form : FilePath → World → Outcome (Unit {0}) (Unit {0})
  pub read_to_string : FilePath → World → Outcome (Unit {0}) Text
  pub extract_html_body : Text → Outcome (Unit {0}) Text
  pub create_file : FilePath → World → Outcome (Unit {0}) (Unit {0}) × World
  pub copy : Response → FilePath → World → Outcome (Unit {0}) (Unit {0}) × World
  pub write_file : FilePath → String → World → Outcome (Unit {0}) (Unit {0}) × World

module _ (J : Json) (S : Server J) where
  abbrev pub Call : Type 0 → Type 0
  Call A = S.World → Outcome Failure A × S.World

  -- `?` on what changes nothing.
  abbrev pub lift : {A : Type 0} → Outcome Failure A → Call A
  lift r w = (r, w)

  abbrev pub fail : {A : Type 0} → TracimClientError → Call A
  fail e w = (err (client e), w)

  abbrev pub reqwest : {A : Type 0} → Outcome ReqwestError A → Outcome Failure A
  reqwest r = map_err (λ e. client (from_reqwest e)) r

  abbrev pub prepared : {A : Type 0} → Outcome (Unit {0}) A → Outcome Failure A
  prepared r = map_err (λ _. client prepare_error) r

  abbrev pub changing :
      {A : Type 0} → (Outcome (Unit {0}) A × S.World) → Outcome Failure A × S.World
  changing (r, w) = (prepared r, w)

  abbrev pub sending :
      Outcome ReqwestError S.Response × S.World → Outcome Failure S.Response × S.World
  sending (r, w) = (reqwest r, w)

  abbrev pub request : Method → List Piece → Payload → Call S.Response
  request method url payload w =
      sending (S.send (record { method = method; url = url; payload = payload }) w)

  unfoldable pub workspace_url : List Piece → List Piece
  workspace_url suffix =
      word S.base_address ∷ word "workspaces/" ∷ number S.workspace_id ∷ word "/" ∷ suffix

  -- `response_error`: an answer without a code is an error of its own.
  unfoldable pub response_error : S.Response → Outcome Failure TracimClientError
  unfolding from_code
  response_error response = elim (reqwest (S.json_of response)) [
    | err e ↦ err e
    | ok content_value ↦ elim (J.as_u64 (J.index content_value "code")) [
      | none ↦ err (client invalid_response)
      | some error_code ↦ elim (from_code error_code) [ none ↦ ok unknown | some error ↦ ok error ]
    ]
  ]

  -- `Err(self.response_error(response)?)`
  abbrev pub refused : {A : Type 0} → S.Response → Outcome Failure A
  refused response = elim (response_error response) [ ok e ↦ err (client e) | err e ↦ err e ]

  -- `response_content_id` and `response_revision_id`, by the key
  unfoldable pub response_id : String → S.Response → Outcome Failure ℕ
  response_id key response = elim (reqwest (S.json_of response)) [
    | err e ↦ err e
    | ok value ↦ integer_of J (client invalid_response) panic value key
  ]

  unfoldable pub created_content_id : S.Response → Outcome Failure ContentId
  unfolding response_id response_error
  created_content_id response =
      if S.status response == 200 then response_id "content_id" response else refused response

  unfoldable pub created_revision_id : S.Response → Outcome Failure RevisionId
  unfolding response_id response_error
  created_revision_id response =
      if S.status response == 200
      then response_id "current_revision_id" response
      else refused response

  -- `no_content` and `no_content_response`
  unfoldable pub no_content : S.Response → Outcome Failure (Unit {0})
  unfolding response_error
  no_content response = if S.status response == 204 then ok tt else refused response
