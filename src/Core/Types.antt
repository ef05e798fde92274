-- ===== src/Core/Types.antt =====
-- core/src/types.rs and core/src/instance.rs: content types, identifiers and file names.
-- An `i32` identifier is its pattern of 32 bits, a number here. A path is the list of its
-- components: `a/b.txt` is `"a" ∷ "b.txt" ∷ []`, and the empty path is `[]`.

use trsync.Base.{
  ℕ, String, Bool, true, false, Option, none, some, List, [], ◌∷◌, Outcome, ok, err, ends_with, Eq,
  ◌==◌, string_eq, if◌then◌else◌,
}

abbrev pub ContentId : Type 0
ContentId = ℕ

abbrev pub RevisionId : Type 0
RevisionId = ℕ

abbrev pub DiskTimestamp : Type 0
DiskTimestamp = ℕ

abbrev pub FileName : Type 0
FileName = String

abbrev pub FilePath : Type 0
FilePath = List FileName

-- `Path::parent`: `none` for the empty path.
unfoldable pub parent : FilePath → Option FilePath
parent [] = none
parent (name ∷ []) = some []
parent (name ∷ next ∷ path) = elim (parent (next ∷ path)) [ none ↦ none | some p ↦ some (name ∷ p) ]

-- `Path::file_name`
unfoldable pub file_name : FilePath → Option FileName
file_name [] = none
file_name (name ∷ []) = some name
file_name (name ∷ next ∷ path) = file_name (next ∷ path)

pub data ContentType : Type 0 where
  file folder html_document : ContentType

pub ContentType-discrete : Discrete ContentType
ContentType-discrete = hlevel

instance unfoldable pub content_type_eq : Eq ContentType
unfolding ContentType-discrete
content_type_eq = record { dec = ContentType-discrete }

-- `impl Display for ContentType`
unfoldable pub to_string : ContentType → String
to_string file = "file"
to_string folder = "folder"
to_string html_document = "html-document"

-- `impl FromStr for ContentType`; the error is the text that was not recognised.
unfoldable pub from_str : String → Outcome String ContentType
from_str s =
    if s == "file"
    then ok file
    else if s == "folder"
    then ok folder
    else if s == "html-document"
    then ok html_document
    else err s

abbrev pub html_document_local_extension : String
html_document_local_extension = ".document.html"

-- `ContentType::from_path`: whether the path is a directory is the file system's answer. The test
-- on the whole path's text is one on its last component.
unfoldable pub from_path : Bool → FilePath → ContentType
from_path true path = folder
from_path false path = elim (file_name path) [
  | none ↦ file
  | some name ↦ if ends_with name html_document_local_extension then html_document else file
]

unfoldable pub fillable : ContentType → Bool
fillable file = true
fillable html_document = true
fillable folder = false

pub data RemoteEventType : Type 0 where
  created modified deleted : RemoteEventType

-- `impl FromStr for RemoteEventType`
unfoldable pub parse_event_type : String → Outcome String RemoteEventType
parse_event_type value =
    if value == "content.modified.file"
    then ok modified
    else if value == "content.modified.html-document"
    then ok modified
    else if value == "content.modified.folder"
    then ok modified
    else if value == "content.created.file"
    then ok created
    else if value == "content.created.html-document"
    then ok created
    else if value == "content.created.folder"
    then ok created
    else if value == "content.deleted.html-document"
    then ok deleted
    else if value == "content.deleted.file"
    then ok deleted
    else if value == "content.deleted.folder"
    then ok deleted
    else if value == "content.undeleted.html-document"
    then ok created
    else if value == "content.undeleted.file"
    then ok created
    else if value == "content.undeleted.folder"
    then ok created
    else err value
