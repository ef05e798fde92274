-- ===== src/Core/Client/Files.antt =====
-- core/src/client.rs: the methods of `Tracim` that take the bytes of a content to a file and back.
use trsync.Base.{String, Option, none, some, [], ◌∷◌, ok, err, map_err, ok_or, nat_eq, string_eq}
use trsync.Base.Lines.{Text}
use trsync.Core.Json.{Json}
use trsync.Core.Error.{prepare_error, file_not_found}
use trsync.Core.Types.{
  ContentId, RevisionId, FilePath, ContentType, file, folder, html_document, content_type_eq,
  file_name,
}
use trsync.Core.Client.{
  get, put, word, number, text, no_payload, json, multipart, Server, client, panic, Call, ◌>>=◌,
  lift, reqwest, prepared, changing, request, workspace_url, created_revision_id, no_content,
}
use trsync.Core.Client.Calls.{get_content}

module _ (J : Json) (S : Server J) where
  abbrev text_or_empty : Option String → String
  text_or_empty none = ""
  text_or_empty (some raw_content) = raw_content

  unfoldable pub fill_file_with_content : ContentId → ContentType → FilePath → Call J S (Unit {0})
  unfolding workspace_url get_content
  fill_file_with_content content_id file path = do
    response ←
        request J S get (workspace_url J S (word "files/" ∷ number content_id ∷ word "/raw/_" ∷ []))
          no_payload
    _ ← λ w. changing J S (S.create_file path w)
    λ w. changing J S (S.copy response path w)
  fill_file_with_content content_id html_document path = do
    content ← get_content J S content_id
    λ w. changing J S (S.write_file path (text_or_empty content.raw_content) w)
  fill_file_with_content content_id folder path = lift J S (ok tt)

  unfoldable pub fill_content_file_with_file : ContentId → FilePath → Call J S RevisionId
  unfolding workspace_url file_name no_content get_content
  fill_content_file_with_file content_id path = do
    _ ← λ w. (prepared J S (S.open_form path w), w)
    name ← lift J S (ok_or (file_name path) (client prepare_error))
    _ ← λ w. (reqwest J S (S.build_client w), w)
    response ←
        request J S put
          (workspace_url J S (word "files/" ∷ number content_id ∷ word "/raw/" ∷ word name ∷ []))
          (multipart none path)
    _ ← lift J S (no_content J S response)
    content ← get_content J S content_id
    lift J S (ok content.current_revision_id)

  abbrev body_of : Text → Text
  body_of html_content = elim (S.extract_html_body html_content) [
    | ok html_part_content ↦ html_part_content
    | err _ ↦ html_content
  ]

  unfoldable pub fill_content_note_with_file : ContentId → FilePath → Call J S RevisionId
  unfolding workspace_url created_revision_id
  fill_content_note_with_file content_id path = do
    html_content ← λ w. (map_err (λ _. client file_not_found) (S.read_to_string path w), w)
    response ←
        request J S put (workspace_url J S (word "html-documents/" ∷ number content_id ∷ []))
          (json (("raw_content", text (body_of html_content)) ∷ []))
    lift J S (created_revision_id J S response)

  -- `fill_content_with_file`; a folder is `unreachable!()`.
  unfoldable pub fill_content_with_file : ContentId → ContentType → FilePath → Call J S RevisionId
  unfolding fill_content_file_with_file fill_content_note_with_file
  fill_content_with_file content_id file path = fill_content_file_with_file content_id path
  fill_content_with_file content_id html_document path = fill_content_note_with_file content_id path
  fill_content_with_file content_id folder path = lift J S (err panic)
