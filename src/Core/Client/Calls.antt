-- ===== src/Core/Client/Calls.antt =====
-- core/src/client.rs: the methods of `Tracim`.
use trsync.Base.{
  ℕ, zero, suc, String, Bool, true, false, Option, none, some, List, [], ◌∷◌, ◌++◌, filter, find,
  Outcome, ok, err, ok_or, ◌==◌, nat_eq, string_eq, if◌then◌else◌,
}
use trsync.Base.Lines.{codes}
use trsync.Core.Json.{Json}
use trsync.Core.Label.{label, remove_text}
use trsync.Core.Content.{RemoteContent}
use trsync.Core.Types.{
  ContentId, RevisionId, FileName, FilePath, ContentType, file, folder, html_document, to_string,
  from_str, content_type_eq, html_document_local_extension,
}
use trsync.Core.Client.{
  ParentIdParameter, to_parameter_value, url_prefix, get, post, put, word, number, Field, null,
  text, integer, texts, no_payload, json, multipart, Server, Failure, panic, Call, ◌>>=◌, lift,
  reqwest, prepared, request, workspace_url, refused, created_content_id, created_revision_id,
  no_content,
}

abbrev parent_field : Option ContentId → List (String × Field)
parent_field none = []
parent_field (some parent_id) = ("parent_id", integer parent_id) ∷ []

module _ (J : Json) (S : Server J) where
  unfoldable pub create_folder : FileName → Option ContentId → Call J S ContentId
  unfolding to_string workspace_url created_content_id
  create_folder name parent = do
    response ← request J S post (workspace_url J S (word "contents" ∷ [])) (
        json (
          ("content_type", text (codes (to_string folder)))
          ∷ ("label", text (codes name))
          ∷ parent_field parent))
    lift J S (created_content_id J S response)

  unfoldable pub create_note : FileName → Option ContentId → Call J S ContentId
  unfolding to_string workspace_url created_content_id remove_text
  create_note name parent = do
    response ← request J S post (workspace_url J S (word "contents" ∷ [])) (
        json (
          ("label", text (remove_text (codes html_document_local_extension) 0 (codes name)))
          ∷ ("raw_content", text [])
          ∷ ("content_type", text (codes (to_string html_document)))
          ∷ parent_field parent))
    lift J S (created_content_id J S response)

  unfoldable pub create_file : Option ContentId → FilePath → Call J S ContentId
  unfolding workspace_url created_content_id
  create_file parent path = do
    _ ← λ w. (prepared J S (S.open_form path w), w)
    _ ← λ w. (reqwest J S (S.build_client w), w)
    response ← request J S post (workspace_url J S (word "files" ∷ [])) (multipart parent path)
    lift J S (created_content_id J S response)

  -- `create_content`
  unfoldable pub create_content :
      FileName → ContentType → Option ContentId → FilePath → Call J S ContentId
  unfolding create_folder create_note create_file
  create_content name folder parent path = create_folder name parent
  create_content name html_document parent path = create_note name parent
  create_content name file parent path = create_file parent path

  unfoldable pub get_content : ContentId → Call J S RemoteContent
  unfolding workspace_url
  get_content content_id = do
    response ←
        request J S get (workspace_url J S (word "contents/" ∷ number content_id ∷ [])) no_payload
    lift J S (
        if S.status response == 200
        then reqwest J S (S.content_of response)
        else refused J S response)

  abbrev sub_content_types : ContentType → ContentId → Call J S (List (String × Field))
  sub_content_types folder content_id = do
    remote_content ← get_content content_id
    lift J S (ok (("sub_content_types", texts remote_content.sub_content_types) ∷ []))
  sub_content_types file content_id = lift J S (ok [])
  sub_content_types html_document content_id = lift J S (ok [])

  unfoldable pub update_content :
      ContentId → ContentType → List (String × Field) → Call J S RevisionId
  unfolding workspace_url url_prefix get_content created_revision_id
  update_content content_id type_ fields = do
    more ← sub_content_types type_ content_id
    response ←
        request J S put
          (workspace_url J S (word (url_prefix type_) ∷ word "/" ∷ number content_id ∷ []))
          (json (fields ++ more))
    lift J S (created_revision_id J S response)

  unfoldable pub set_label : ContentId → ContentType → FileName → Call J S RevisionId
  unfolding label update_content
  set_label content_id type_ value = do
    label_ ← lift J S (ok_or (label type_ (codes value)) panic)
    update_content content_id type_
        (("label", text label_) ∷ ("file_name", text (codes value)) ∷ [])

  abbrev optional : Option ℕ → Field
  optional none = null
  optional (some n) = integer n

  unfoldable pub set_parent : ContentId → Option ContentId → Option ℕ → Call J S RevisionId
  unfolding workspace_url created_revision_id
  set_parent content_id value new_workspace_id = do
    response ←
        request J S put
          (workspace_url J S (word "contents/" ∷ number content_id ∷ word "/move" ∷ []))
          (json (
            ("new_parent_id", optional value)
            ∷ (
              "new_workspace_id",
              integer (elim new_workspace_id [ none ↦ S.workspace_id | some id ↦ id ]),
            )
            ∷ []))
    lift J S (created_revision_id J S response)

  unfoldable pub trash_content : ContentId → Call J S (Unit {0})
  unfolding workspace_url no_content
  trash_content content_id = do
    response ←
        request J S put
          (workspace_url J S (word "contents/" ∷ number content_id ∷ word "/trashed" ∷ []))
          no_payload
    lift J S (no_content J S response)

  unfoldable pub restore_content : ContentId → Call J S (Unit {0})
  unfolding workspace_url no_content
  restore_content content_id = do
    response ←
        request J S put
          (workspace_url J S (word "contents/" ∷ number content_id ∷ word "/trashed/restore" ∷ []))
          no_payload
    lift J S (no_content J S response)

  abbrev supported : RemoteContent → Bool
  supported c = elim (from_str c.content_type) [ ok _ ↦ true | err _ ↦ false ]

  abbrev page_items : S.Response → Outcome Failure (List RemoteContent)
  page_items response =
      if S.status response == 200
      then (elim (reqwest J S (S.page_of response)) [
        | err e ↦ err e
        | ok page ↦ ok (filter supported page.items)
      ])
      else refused J S response

  unfoldable pub get_contents : Call J S (List RemoteContent)
  unfolding from_str workspace_url
  get_contents = do
    response ← request J S get (workspace_url J S (word "contents" ∷ [])) no_payload
    lift J S (page_items response)

  abbrev id_of : Option RemoteContent → Option ContentId
  id_of none = none
  id_of (some c) = some c.content_id

  unfoldable pub find_one : FileName → ParentIdParameter → Call J S (Option ContentId)
  unfolding from_str workspace_url to_parameter_value
  find_one name parent_id = do
    response ←
        request J S get
          (workspace_url J S
            (word "contents?parent_ids=" ∷ number (to_parameter_value parent_id) ∷ []))
          no_payload
    items ← lift J S (page_items response)
    lift J S (ok (id_of (find (λ (c : RemoteContent). c.filename == name) items)))

  abbrev Climb : Type 0
  Climb = S.World → Option (Outcome Failure FilePath × S.World)

  abbrev climbing :
      (RemoteContent → Climb)
      → Outcome Failure RemoteContent × S.World
      → Option (Outcome Failure FilePath × S.World)
  climbing next (err e, w) = some (err e, w)
  climbing next (ok content, w) = next content w

  -- The `while` loop of `get_content_path`, from the content up; `none` when the fuel is spent.
  unfoldable pub names_above : ℕ → RemoteContent → FilePath → Climb
  unfolding get_content
  names_above zero content below w = none
  names_above (suc fuel) content below w = elim content.parent_id [
    | none ↦ some (ok (content.filename ∷ below), w)
    | some parent_id ↦
        climbing (λ parent. names_above fuel parent (content.filename ∷ below))
          (get_content parent_id w)
  ]

  unfoldable pub get_content_path : ℕ → ContentId → Climb
  unfolding get_content names_above
  get_content_path fuel content_id w =
      climbing (λ content. names_above fuel content []) (get_content content_id w)
