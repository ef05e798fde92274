-- ===== src/State/Disk.antt =====
-- trsync/src/state/disk.rs: the state in a database table. SQLite and the file system are no code
-- of the program: a connection and whether a path is a directory are parameters.
pub mod Stale
pub mod Rows
pub mod Lawful
use trsync.Base.{
  ℕ, suc, ◌≡◌, Bool, true, false, not, Option, none, some, List, [], ◌∷◌, ◌++◌, map, Outcome, ok,
  err, ◌>>=◌, ◌>>◌, map_err, ok_or, filter, find, length, ◌==◌, nat_eq, list_eq, string_eq,
  option_eq, if◌then◌else◌,
}
use trsync.Core.Types.{
  ContentId, RevisionId, DiskTimestamp, FileName, FilePath, ContentType, folder, content_type_eq,
  file_name, from_path,
}
use trsync.Core.Content.{Anyhow, failed, Content, new}
use trsync.Core.Error.{
  StateError, unexpected_error, unknown_error, unknown_content, path_already_exist,
}
use trsync.State.{State}
use trsync.State.Path.{Parts, to_path_buf, path_loop}

-- A row of the table `file`.
pub record Row : Type 0 where
  pub relative_path : FilePath
  pub content_id : ContentId
  pub revision_id : RevisionId
  pub parent_id : Option ContentId
  pub last_modified_timestamp : DiskTimestamp

pub data SqlError : Type 0 where
  unique_relative_path other : SqlError

-- The statements that the source executes. `select` gives the rows of the table; each query of the
-- source is a pass over them.
pub record Database : Type 1 where
  pub Connection : Type 0
  pub select : Connection → Outcome SqlError (List Row)
  pub insert : Connection → Row → Outcome SqlError Connection
  -- DELETE FROM file WHERE content_id = ?
  pub delete : Connection → ContentId → Outcome SqlError Connection
  -- UPDATE file SET relative_path = ?, … WHERE content_id = ?
  pub update : Connection → Row → Outcome SqlError Connection

module _ (D : Database) (is_dir : FilePath → Bool) where
  -- `content_from_raw`
  unfoldable pub content_from_raw :
      ContentId → FilePath → RevisionId → Option ContentId → Outcome Anyhow Content
  unfolding new
  content_from_raw id relative_path revision_id parent_id = do
    name ← ok_or (file_name relative_path) failed
    new id revision_id name parent_id (from_path (is_dir relative_path) relative_path)

  abbrev pub from_row : Row → Outcome Anyhow Content
  from_row row = content_from_raw row.content_id row.relative_path row.revision_id row.parent_id

  -- The loop of `contents` over the rows; `?` ends it.
  unfoldable pub from_rows : List Row → Outcome Anyhow (List Content)
  from_rows [] = ok []
  from_rows (row ∷ rows) = do content ← from_row row; rest ← from_rows rows; ok (content ∷ rest)

  abbrev pub anyhow {ℓ} : {A : Type ℓ} → Outcome SqlError A → Outcome Anyhow A
  anyhow r = map_err (λ _. failed) r

  module _ (c : D.Connection) where
    unfoldable pub known : ContentId → Outcome Anyhow Bool
    known id = do
      rows ← anyhow (D.select c)
      elim (find (λ (r : Row). r.content_id == id) rows) [ none ↦ ok false | some row ↦ ok true ]

    unfoldable pub get : ContentId → Outcome Anyhow (Option Content)
    get id = do
      rows ← anyhow (D.select c)
      elim (find (λ (r : Row). r.content_id == id) rows) [
        | none ↦ ok none
        | some row ↦ do
          content ← content_from_raw id row.relative_path row.revision_id row.parent_id
          ok (some content)
      ]

    unfoldable pub content_id_for_path : FilePath → Outcome Anyhow (Option ContentId)
    content_id_for_path p = do
      rows ← anyhow (D.select c)
      elim (find (λ (r : Row). r.relative_path == p) rows) [
        | none ↦ ok none
        | some row ↦ ok (some row.content_id)
      ]

    -- `path`, within the fuel
    unfoldable pub path_within : ℕ → ContentId → Option Parts
    unfolding path_loop
    path_within fuel id = elim (get id) [
      | err e ↦ some (err unexpected_error)
      | ok none ↦ some (err (unknown_content id))
      | ok (some content) ↦ path_loop get fuel content (content ∷ [])
    ]

    -- A walk meets at most as many contents as there are rows.
    abbrev row_count : ℕ
    row_count = elim (D.select c) [ err e ↦ 0 | ok rows ↦ length rows ]

    unfoldable pub path : ContentId → Parts
    path id = elim (path_within (suc row_count) id) [ none ↦ err unexpected_error | some r ↦ r ]

    -- Folders come first; the order of the others is not determined by the comparison.
    unfoldable pub contents : Outcome Anyhow (List Content)
    unfolding from_rows
    contents = do
      rows ← anyhow (D.select c)
      all ← from_rows rows
      ok (filter (λ x. x.type_ == folder) all ++ filter (λ x. not (x.type_ == folder)) all)

    unfoldable pub direct_children_ids : ContentId → Outcome Anyhow (List ContentId)
    direct_children_ids id = do
      rows ← anyhow (D.select c)
      ok (map (λ (r : Row). r.content_id) (filter (λ r. r.parent_id == some id) rows))

    unfoldable pub forgot : ContentId → Outcome Anyhow D.Connection
    forgot id = anyhow (D.delete c id)

    unfoldable pub add : Content → FilePath → DiskTimestamp → Outcome StateError D.Connection
    add content relative_path timestamp =
        elim (D.insert c (record {
          relative_path = relative_path;
          content_id = content.id;
          revision_id = content.revision_id;
          parent_id = content.parent_id;
          last_modified_timestamp = timestamp;
        })) [
          | ok c' ↦ ok c'
          | err unique_relative_path ↦ err (path_already_exist relative_path content.id)
          | err other ↦ err unknown_error
        ]

    -- The path of the parent and the name; the name alone without a parent, or where the parent's
    -- path cannot be told.
    unfoldable pub new_path : FileName → Option ContentId → FilePath
    unfolding path to_path_buf
    new_path name none = name ∷ []
    new_path name (some parent_id) = elim (path parent_id) [
      | err e ↦ name ∷ []
      | ok parts ↦ to_path_buf parts ++ (name ∷ [])
    ]

    unfoldable pub update :
        ContentId
        → FileName
        → RevisionId
        → Option ContentId
        → DiskTimestamp
        → Outcome Anyhow D.Connection
    unfolding new_path
    update id name revision_id parent_id timestamp = anyhow (
        D.update c (record {
          relative_path = new_path name parent_id;
          content_id = id;
          revision_id = revision_id;
          parent_id = parent_id;
          last_modified_timestamp = timestamp;
        }))

  -- `impl State for DiskState`
  abbrev pub disk_state : State
  disk_state = record {
    Store = D.Connection;
    known = known;
    get = get;
    content_id_for_path = content_id_for_path;
    path = path;
    contents = contents;
    direct_children_ids = direct_children_ids;
    forgot = forgot;
    add = add;
    update = update;
  }
