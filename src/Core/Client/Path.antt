-- ===== src/Core/Client/Path.antt =====
-- core/src/client.rs: the path that `get_content_path` puts together from the names of a content and of all
-- above it.
use trsync.Base.{ℕ, zero, suc, ◌<◌, ◌≡◌, refl, Option, none, some, [], ◌∷◌, ◌++◌, ok, nat_eq, arith}
use mathlib.Core.List.{append_assoc, append-nil}
use trsync.Core.Json.{Json}
use trsync.Core.Content.{RemoteContent}
use trsync.Core.Types.{ContentId, FilePath}
use trsync.Core.Client.{Request, Server, workspace_url, word, number, get, no_payload}
use trsync.Core.Client.Calls.{get_content, names_above, get_content_path}

-- The names from a root down to a content, with the number of contents above it.
pub data IsBranch (known : ContentId → Option RemoteContent)
    : FilePath → RemoteContent → ℕ → Type 0 where
  root :
      (content : RemoteContent)
      → content.parent_id ≡ none
      → IsBranch known (content.filename ∷ []) content 0
  child :
      {above : FilePath} {parent : RemoteContent} {depth : ℕ} (content : RemoteContent)
      (parent_id : ContentId)
      → content.parent_id ≡ some parent_id
      → known parent_id ≡ some parent
      → IsBranch known above parent depth
      → IsBranch known (above ++ (content.filename ∷ [])) content (suc depth)

module _ (J : Json) (S : Server J) (known : ContentId → Option RemoteContent) where
  abbrev pub content_request : ContentId → Request
  unfolding workspace_url
  content_request content_id = record {
    method = get;
    url = workspace_url J S (word "contents/" ∷ number content_id ∷ []);
    payload = no_payload;
  }

  -- A known content that is asked for in a world of this kind is given, and the world is still of it.
  abbrev pub Serves : (S.World → Type 0) → Type 0
  Serves Holds =
      (w : S.World)
      → Holds w
      → (content_id : ContentId) (content : RemoteContent) → known content_id ≡ some content
      → (response : S.Response) × (w' : S.World) × (S.send (content_request content_id) w
          ≡ (ok response, w'))
        × (S.status response ≡ 200)
        × (S.content_of response ≡ ok content)
        × Holds w'

  -- In a world of this kind `get_content` gives a known content, and leaves such a world.
  abbrev Gives : (S.World → Type 0) → Type 0
  Gives Holds =
      (w : S.World)
      → Holds w
      → (content_id : ContentId) (content : RemoteContent) → known content_id ≡ some content
      → (w' : S.World) × (get_content J S content_id w ≡ (ok content, w')) × Holds w'

  gives : (Holds : S.World → Type 0) → Serves Holds → Gives Holds
  unfolding get_content workspace_url nat_eq
  gives Holds serves w holds content_id content k =
      let (response, w', sent, s, c, holds') = serves w holds content_id content k in
      (w', rw (get_content, sent, s, c) refl, holds')

  module _ (Holds : S.World → Type 0) (serves : Serves Holds) where
    names_above-names :
        (fuel : ℕ) (names : FilePath) (content : RemoteContent) (depth : ℕ) (below : FilePath)
        (w : S.World)
        → IsBranch known names content depth
        → depth < fuel
        → Holds w
        → (w' : S.World) × (names_above J S fuel content below w ≡ some (ok (names ++ below), w'))
          × Holds w'
    unfolding names_above
    names_above-names zero names content depth below w branch low holds = elim low [ ]
    names_above-names (suc fuel) _ content _ below w (root _ e) low holds =
        (w, rw (names_above, e) refl, holds)
    names_above-names (suc fuel) _ _ _ below w (child {above} {parent} {depth} content p e k b) low
          holds =
        let (w1, got, holds1) = gives Holds serves w holds p parent k in
        let (w', rest, holds') =
          names_above-names fuel above parent depth (content.filename ∷ below) w1 b (omega arith)
            holds1 in
        (
          w',
          rw (names_above, e, got, append_assoc above (content.filename ∷ []) below) rest,
          holds',
        )

    -- Where the server gives a content and each content above it, `get_content_path` returns the names from the
    -- root down to the content, with fuel above the number of contents above it.
    pub get_content_path-names :
        (fuel : ℕ) (content_id : ContentId) (content : RemoteContent) (names : FilePath) (depth : ℕ)
        (w : S.World)
        → known content_id ≡ some content
        → IsBranch known names content depth
        → depth < fuel
        → Holds w
        → (w' : S.World) × (get_content_path J S fuel content_id w ≡ some (ok names, w'))
    unfolding get_content_path
    get_content_path-names fuel content_id content names depth w k branch low holds =
        let (w1, got, holds1) = gives Holds serves w holds content_id content k in
        let (w', rest, _) = names_above-names fuel names content depth [] w1 branch low holds1 in
        (w', rw (get_content_path, got, rest, append-nil names) refl)
