-- ===== src/Core/Client/Refused.antt =====
-- core/src/client.rs: what becomes of an answer that refuses a request.
use trsync.Base.{false, Option, some, ok, err, ◌≡◌, refl, ◌==◌, nat_eq}
use trsync.Core.Json.{Json}
use trsync.Core.Content.{RemoteContent}
use trsync.Core.Error.{TracimClientError, content_already_exist}
use trsync.Core.Types.{ContentId, FileName, FilePath, ContentType, file, folder, html_document}
use trsync.Core.Client.{
  Request, Server, client, refused, response_error, created_content_id, from_code,
}
use trsync.Core.Client.Calls.{create_folder, create_note, create_file, create_content, get_content}
use trsync.Core.Client.Files.{fill_file_with_content}

module _ (J : Json) (S : Server J) where
  -- The answer that a request gets, whatever it asks for.
  abbrev pub Answers : S.World → S.Response → S.World → Type 0
  Answers w response w' = (asked : Request) → S.send asked w ≡ (ok response, w')

  response_error-exists :
      (response : S.Response) (value : J.Value)
      → S.json_of response ≡ ok value
      → J.as_u64 (J.index value "code") ≡ some 3002
      → response_error J S response ≡ ok content_already_exist
  unfolding response_error from_code nat_eq
  response_error-exists response value v c = rw (response_error, v, c) refl

  refused-error :
      {A : Type 0} (response : S.Response) (error : TracimClientError)
      → response_error J S response ≡ ok error
      → refused J S {A = A} response ≡ err (client error)
  refused-error response error e = rw (refused, e) refl

  created_content_id-refused :
      (response : S.Response) (error : TracimClientError)
      → (S.status response == 200) ≡ false
      → response_error J S response ≡ ok error
      → created_content_id J S response ≡ err (client error)
  unfolding created_content_id
  created_content_id-refused response error s e =
      rw (created_content_id, s, refused-error {A = ContentId} response error e) refl

  module _ (w w' : S.World) (response : S.Response) (answers : Answers w response w') where
    -- Where the server answers a creation with the code 3002, the error is that the content already exists, for a
    -- content of each type; the caller looks for this error.
    create_content-exists :
        (name : FileName) (type_ : ContentType) (parent : Option ContentId) (path : FilePath)
        (value : J.Value)
        → (S.status response == 200) ≡ false
        → S.json_of response ≡ ok value
        → J.as_u64 (J.index value "code") ≡ some 3002
        → S.open_form path w ≡ ok tt
        → S.build_client w ≡ ok tt
        → create_content J S name type_ parent path w ≡ (err (client content_already_exist), w')
    unfolding create_content create_folder create_note create_file
    create_content-exists name folder parent path value s v c form build =
        let e =
          created_content_id-refused response content_already_exist s
            (response_error-exists response value v c) in
        rw (create_content, create_folder, answers, e) refl
    create_content-exists name html_document parent path value s v c form build =
        let e =
          created_content_id-refused response content_already_exist s
            (response_error-exists response value v c) in
        rw (create_content, create_note, answers, e) refl
    create_content-exists name file parent path value s v c form build =
        let e =
          created_content_id-refused response content_already_exist s
            (response_error-exists response value v c) in
        rw (create_content, create_file, form, build, answers, e) refl

    -- Where the server refuses to give a content, the file of a note is left alone and the call fails; but for a
    -- file what the server says is copied into it, whatever its status, and the call succeeds.
    pub fill_file_with_content-refused :
        (content_id : ContentId) (path : FilePath) (error : TracimClientError) (w2 w3 : S.World)
        → (S.status response == 200) ≡ false
        → response_error J S response ≡ ok error
        → S.create_file path w' ≡ (ok tt, w2)
        → S.copy response path w2 ≡ (ok tt, w3)
        → (fill_file_with_content J S content_id html_document path w ≡ (err (client error), w'))
          × (fill_file_with_content J S content_id file path w ≡ (ok tt, w3))
    unfolding fill_file_with_content get_content
    fill_file_with_content-refused content_id path error w2 w3 s e created copied = (
      rw
          (
            fill_file_with_content,
            get_content,
            answers,
            s,
            refused-error {A = RemoteContent} response error e,
          )
          refl,
      rw (fill_file_with_content, answers, created, copied) refl,
    )
