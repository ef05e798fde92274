-- ===== src/Sync/Remote.antt =====
-- trsync/src/sync/remote.rs: the changes of the server since the last synchronization. The contents
-- are the server's answer; the rows come from the table `file`.
pub mod Deleted
pub mod Quiet
use trsync.Base.{
  ℕ, zero, suc, Bool, true, false, not, ◌&&◌, ◌||◌, Option, none, some, List, [], ◌∷◌, ◌++◌, map,
  Outcome, ok, err, ◌>>=◌, ◌>>◌, map_err, contains, filter, find, ◌==◌, list_eq, string_eq, nat_eq,
  if◌then◌else◌,
}
use trsync.Base.HashMap.{HashMap, insert, contains_key}
use trsync.Core.Types.{ContentId, RevisionId, FilePath}
use trsync.Core.Content.{Anyhow, failed, Content, RemoteContent, from_remote}
use trsync.Core.Change.Remote.{RemoteChange, new, updated, disappear}
use trsync.State.Path.{to_path_buf}
use trsync.State.Disk.{Row}
use trsync.State.Memory.{MemoryState, path, contents, known}
use trsync.State.Memory

abbrev pub gone : RemoteContent → Bool
gone c = c.is_deleted || c.is_archived

module _ (all : List RemoteContent) where
  unfoldable pub content_of : ContentId → Option RemoteContent
  content_of id = find (λ (c : RemoteContent). c.content_id == id) all

  -- The `while let` loop of `is_deleted`: a parent that is not found counts as deleted. `none` only
  -- when the fuel is spent; the source does not return where the parents form a cycle.
  unfoldable pub deleted_above : ℕ → Option ContentId → Option Bool
  unfolding content_of
  deleted_above fuel none = some false
  deleted_above zero (some id) = none
  deleted_above (suc fuel) (some id) = elim (content_of id) [
    | none ↦ some true
    | some parent ↦
        let rest = deleted_above fuel parent.parent_id in if gone parent then some true else rest
  ]

  unfoldable pub is_deleted : ℕ → RemoteContent → Option Bool
  unfolding deleted_above
  is_deleted fuel c = if gone c then some true else deleted_above fuel c.parent_id

  -- `is_attachment`
  unfoldable pub is_attachment : RemoteContent → Bool
  unfolding content_of
  is_attachment c =
      if c.content_type == "file"
      then elim c.parent_id [
        | none ↦ false
        | some id ↦ elim (content_of id) [
          | none ↦ false
          | some parent ↦ not (parent.content_type == "folder")
        ]
      ]
      else false

  -- The loop of `state`, over the contents that it has not seen yet.
  unfoldable pub gather :
      ℕ
      → List RemoteContent
      → HashMap ContentId Content
      → Option (Outcome Anyhow (HashMap ContentId Content))
  unfolding is_deleted is_attachment
  gather fuel [] m = some (ok m)
  gather fuel (c ∷ rest) m = elim (is_deleted fuel c) [
    | none ↦ none
    | some true ↦ gather fuel rest m
    | some false ↦ elim (is_attachment c) [
      | true ↦ gather fuel rest m
      | false ↦ elim (from_remote c) [
        | err e ↦ some (err e)
        | ok content ↦ gather fuel rest (insert content.id content m)
      ]
    ]
  ]

  -- `RemoteSync::state`
  unfoldable pub state : ℕ → Option (Outcome Anyhow MemoryState)
  unfolding gather
  state fuel = elim (gather fuel all []) [
    | none ↦ none
    | some (err e) ↦ some (err e)
    | some (ok m) ↦ some (Memory.new m [])
  ]

module _ (ignored : List ContentId) (rows : List Row) where
  -- SELECT … WHERE content_id = ?
  unfoldable pub row_of : ContentId → Option Row
  row_of id = find (λ (row : Row). row.content_id == id) rows

  -- The change of a content of the server, with its path.
  unfoldable pub change : Content → FilePath → Option RemoteChange
  unfolding row_of
  change content p = elim (row_of content.id) [
    | none ↦ some (new content.id p)
    | some row ↦
        if content.revision_id == row.revision_id then none else some (updated content.id p)
  ]

  abbrev prepend : Option RemoteChange → List RemoteChange → List RemoteChange
  prepend none changes = changes
  prepend (some c) changes = c ∷ changes

  -- The first loop of `changes`.
  unfoldable pub changes_of : MemoryState → List Content → Outcome Anyhow (List RemoteChange)
  unfolding change
  changes_of s [] = ok []
  changes_of s (content ∷ rest) =
      let later = changes_of s rest in
      if contains ignored content.id then later else do
        parts ← map_err (λ _. failed) (path s content.id)
        cs ← later
        ok (prepend (change content (to_path_buf parts)) cs)

  -- Its second loop, over the rows.
  unfoldable pub disappeared : MemoryState → List Row → List RemoteChange
  disappeared s [] = []
  disappeared s (row ∷ rest) =
      let later = disappeared s rest in
      if contains_key s.contents row.content_id
      then later
      else disappear row.content_id row.relative_path ∷ later

  -- `changes`, with the server's state
  unfoldable pub changes : MemoryState → Outcome Anyhow (List RemoteChange)
  unfolding changes_of disappeared
  changes s = do all ← contents s; cs ← changes_of s all; ok (cs ++ disappeared s rows)
