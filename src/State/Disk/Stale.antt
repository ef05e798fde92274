-- ===== src/State/Disk/Stale.antt =====
-- trsync/src/state/disk.rs: what an update leaves of the other rows.
use trsync.Base.{
  Bool-cases, Bool, false, ◌≡◌, ◌≢◌, ap, ◌∙◌, Option, some, List, [], ◌∷◌, map, ok, find,
  Outcome-cases, Option-cases, inl, inr, ◌==◌, nat_eq, list_eq, string_eq, if◌then◌else◌, arith,
}
use mathlib.Core.Option.{some-injective}
use trsync.Core.Types.{ContentId, RevisionId, DiskTimestamp, FileName, FilePath}
use trsync.State.Disk.{Row, Database, content_id_for_path, new_path, update}

-- The rows after UPDATE … WHERE content_id = ?
unfoldable pub replaced : Row → List Row → List Row
replaced row = map (λ (r : Row). if r.content_id == row.content_id then row else r)

-- What the statement does to the table, where it succeeds.
unfoldable pub UpdateReplaces : Database → Type 0
UpdateReplaces D =
    (c c' : D.Connection) (row : Row) (rows : List Row)
    → D.select c ≡ ok rows
    → D.update c row ≡ ok c'
    → D.select c' ≡ ok (replaced row rows)

find-replaced :
    (test : Row → Bool) (row : Row) (rows : List Row) (r : Row)
    → test row ≡ false
    → find test rows ≡ some r
    → r.content_id ≢ row.content_id
    → find test (replaced row rows) ≡ some r
unfolding replaced
find-replaced test row [] r n f d = ground arith
find-replaced test row (x ∷ rows) r n f d = elim (nat_eq.dec x.content_id row.content_id) [
  | yes q ↦ elim (Bool-cases (test x)) [
    | inl t ↦ absurd (d (ap (λ (o : Row). o.content_id) (some-injective r x (ground arith)) ∙ q))
    | inr t ↦ ground (arith, find-replaced test row rows r n (ground arith) d)
  ]
  | no q ↦ elim (Bool-cases (test x)) [
    | inl t ↦ ground arith
    | inr t ↦ ground (arith, find-replaced test row rows r n (ground arith) d)
  ]
]

absent-path : (row : Row) (p : FilePath) → row.relative_path ≢ p → (row.relative_path == p) ≡ false
absent-path row p n = ground arith

-- The update of a content leaves the others under their old paths, where these are not its new one: after a folder
-- has been renamed, what is in it is still found under the folder's old name.
pub content_id_for_path-stale :
    (D : Database) (is_dir : FilePath → Bool)
    → UpdateReplaces D
    → (c c' : D.Connection) (rows : List Row) (id child_id : ContentId) (name : FileName)
      (revision_id : RevisionId) (parent_id : Option ContentId) (timestamp : DiskTimestamp)
      (p : FilePath)
    → D.select c ≡ ok rows
    → update D is_dir c id name revision_id parent_id timestamp ≡ ok c'
    → new_path D is_dir c name parent_id ≢ p
    → content_id_for_path D is_dir c p ≡ ok (some child_id)
    → child_id ≢ id
    → content_id_for_path D is_dir c' p ≡ ok (some child_id)
unfolding content_id_for_path update UpdateReplaces
content_id_for_path-stale D is_dir law c c' rows id child_id name revision_id parent_id timestamp p
      s u n f d =
    let row : Row = record {
      relative_path = new_path D is_dir c name parent_id;
      content_id = id;
      revision_id = revision_id;
      parent_id = parent_id;
      last_modified_timestamp = timestamp;
    } in
    elim (Outcome-cases (D.update c row)) [
      | inl (e, q) ↦ absurd (ground arith)
      | inr (c2, q) ↦ elim (Option-cases (find (λ (x : Row). x.relative_path == p) rows)) [
        | inl m ↦ absurd (ground arith)
        | inr (r, m) ↦ ground (
          arith,
          law c c' row rows s (ground arith),
          find-replaced (λ (x : Row). x.relative_path == p) row rows r (absent-path row p n) m
              (λ e. d (ground arith)),
        )
      ]
    ]
