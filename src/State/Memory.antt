-- ===== src/State/Memory.antt =====
-- trsync/src/state/memory.rs: the state in two hash maps. Where a loop up the parents runs out of
-- fuel, the model's `path` gives an error; `path_within` tells the two apart.
pub mod Laws
use trsync.Base.{
  ℕ, zero, suc, ◌≡◌, Bool, true, false, not, ◌&&◌, Option, none, some, List, [], ◌∷◌, ◌++◌, map,
  Outcome, ok, err, ◌>>=◌, ◌>>◌, map_err, ok_or, filter, length, ◌==◌, nat_eq, list_eq, string_eq,
  option_eq, if◌then◌else◌,
}
use trsync.Base.HashMap.{HashMap, lookup, insert, remove, values, contains_key}
use trsync.Core.Types.{
  ContentId, RevisionId, DiskTimestamp, FileName, FilePath, ContentType, folder, content_type_eq,
}
use trsync.Core.Content.{Anyhow, failed, Content}
use trsync.Core.Error.{StateError, unexpected_error}
use trsync.State.{State}
use trsync.State.Path.{Parts, to_path_buf, path_loop}

pub record MemoryState : Type 0 where
  pub contents : HashMap ContentId Content
  pub timestamps : HashMap ContentId DiskTimestamp

-- The loop of `MemoryState::new`: is the parent of each content there?
unfoldable pub parents_known : HashMap ContentId Content → List Content → Bool
parents_known contents [] = true
parents_known contents (content ∷ rest) =
    elim content.parent_id [ none ↦ true | some p ↦ contains_key contents p ]
    && parents_known contents rest

unfoldable pub new :
    HashMap ContentId Content → HashMap ContentId DiskTimestamp → Outcome Anyhow MemoryState
unfolding parents_known
new contents timestamps =
    if parents_known contents (values contents)
    then ok (record { contents = contents; timestamps = timestamps })
    else err failed

module _ (s : MemoryState) where
  unfoldable pub known : ContentId → Outcome Anyhow Bool
  known id = ok (contains_key s.contents id)

  unfoldable pub get : ContentId → Outcome Anyhow (Option Content)
  get id = ok (lookup id s.contents)

  -- `path`, within the fuel
  unfoldable pub path_within : ℕ → ContentId → Option Parts
  unfolding get path_loop
  path_within fuel id = elim (lookup id s.contents) [
    | none ↦ some (err unexpected_error)
    | some content ↦ path_loop get fuel content (content ∷ [])
  ]

  -- The contents that a walk meets are at most all of them.
  unfoldable pub path : ContentId → Parts
  unfolding path_within
  path id = elim (path_within (suc (length s.contents)) id) [
    | none ↦ err unexpected_error
    | some r ↦ r
  ]

  -- The loop of `content_id_for_path` over the contents.
  unfoldable pub search_path : FilePath → List Content → Outcome Anyhow (Option ContentId)
  search_path p [] = ok none
  search_path p (content ∷ rest) =
      let later = search_path p rest in
      elim (path content.id) [
        | err e ↦ err failed
        | ok parts ↦ if to_path_buf parts == p then ok (some content.id) else later
      ]

  unfoldable pub content_id_for_path : FilePath → Outcome Anyhow (Option ContentId)
  unfolding search_path
  content_id_for_path p = search_path p (values s.contents)

  -- Folders come first. The comparison answers `Less` for two contents that are no folders, either
  -- way round, so that their order is not determined; here it is the map's.
  unfoldable pub contents : Outcome Anyhow (List Content)
  contents = ok (
      filter (λ c. c.type_ == folder) (values s.contents)
      ++ filter (λ c. not (c.type_ == folder)) (values s.contents))

  unfoldable pub direct_children_ids : ContentId → Outcome Anyhow (List ContentId)
  direct_children_ids id =
      ok (map (λ (c : Content). c.id) (filter (λ c. c.parent_id == some id) (values s.contents)))

  -- The time stamp stays.
  unfoldable pub forgot : ContentId → Outcome Anyhow MemoryState
  unfolding remove
  forgot id =
      if contains_key s.contents id
      then ok (record s { contents = remove id s.contents })
      else err failed

  unfoldable pub add : Content → FilePath → DiskTimestamp → Outcome StateError MemoryState
  unfolding insert
  add content _ timestamp = ok (record {
    contents = insert content.id content s.contents;
    timestamps = insert content.id timestamp s.timestamps;
  })

  unfoldable pub update :
      ContentId
      → FileName
      → RevisionId
      → Option ContentId
      → DiskTimestamp
      → Outcome Anyhow MemoryState
  unfolding insert
  update id file_name revision_id parent_id timestamp = elim (lookup id s.contents) [
    | none ↦ err failed
    | some content ↦ ok (record {
      contents =
          insert id
            (record content {
              revision_id = revision_id;
              parent_id = parent_id;
              file_name = file_name;
            })
            s.contents;
      timestamps = insert id timestamp s.timestamps;
    })
  ]

-- `impl State for MemoryState`
abbrev pub memory_state : State
memory_state = record {
  Store = MemoryState;
  known = known;
  get = get;
  content_id_for_path = content_id_for_path;
  path = path;
  contents = contents;
  direct_children_ids = direct_children_ids;
  forgot = forgot;
  add = add;
  update = update;
}
