-- ===== src/Core/Content.antt =====
-- core/src/content.rs, and the remote representation of a content in core/src/client.rs. A failed
-- `anyhow` chain is the one value `failed`: its message is not modelled.
use trsync.Base.{
  String, Bool, List, Option, none, some, Outcome, ok, err, ◌>>=◌, map_err, ◌==◌, nat_eq,
  if◌then◌else◌,
}
use trsync.Core.Types.{ContentId, RevisionId, FileName, ContentType, from_str}

-- `anyhow::Error`
pub data Anyhow : Type 0 where
  failed : Anyhow

pub record Content : Type 0 where
  pub id : ContentId
  pub revision_id : RevisionId
  pub file_name : FileName
  pub parent_id : Option ContentId
  pub type_ : ContentType

-- `RemoteContent`
pub record RemoteContent : Type 0 where
  pub content_id : ContentId
  pub current_revision_id : RevisionId
  pub parent_id : Option ContentId
  pub content_type : String
  pub modified : String
  pub raw_content : Option String
  pub filename : FileName
  pub is_deleted : Bool
  pub is_archived : Bool
  pub sub_content_types : List String

-- `Content::new` refuses a content that is its own parent.
unfoldable pub new :
    ContentId → RevisionId → FileName → Option ContentId → ContentType → Outcome Anyhow Content
new id revision_id file_name none type_ = ok (record {
  id = id;
  revision_id = revision_id;
  file_name = file_name;
  parent_id = none;
  type_ = type_;
})
new id revision_id file_name (some parent_id) type_ =
    if parent_id == id
    then err failed
    else ok (record {
      id = id;
      revision_id = revision_id;
      file_name = file_name;
      parent_id = some parent_id;
      type_ = type_;
    })

-- `Content::from_remote`
unfoldable pub from_remote : RemoteContent → Outcome Anyhow Content
unfolding new from_str
from_remote value = do
  type_ ← map_err (λ _. failed) (from_str value.content_type)
  new value.content_id value.current_revision_id value.filename value.parent_id type_
