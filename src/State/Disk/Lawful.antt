-- ===== src/State/Disk/Lawful.antt =====
-- trsync/src/state/disk.rs: `DiskState` meets the assumptions of the recursive removal, where the statements
-- do what SQL says.
use mathlib.Core.Option.{some-injective}
use mathlib.Core.Path.{subst}
use trsync.Base.{
  Bool, true, Bool-cases, Outcome-cases, Option-cases, inl, inr, ◌≡◌, ap, sym, ◌∙◌, none, some,
  List, [], ◌∷◌, find, contains, ok, ◌==◌, nat_eq, option_eq, if◌then◌else◌, arith, All,
}
use trsync.Core.Types.{ContentId, FilePath, file_name}
use trsync.Core.Content.{Content, new}
use trsync.State.Disk.{
  Row, Database, content_from_raw, get, direct_children_ids, forgot, disk_state,
}
use trsync.State.Disk.Rows.{
  is_id, without_id, find-without_id, find-without_other, NodupIds, none-without_id, ids_under,
  ids_under_complete, ids_under_sound,
}
use trsync.State.Forget.{IsLawful, Child}

-- A statement that succeeds is one on a table that can be read, and removes the rows of the id.
pub record Deletes (D : Database) : Type 0 where
  pub select-delete :
      (c c' : D.Connection) (id : ContentId)
      → D.delete c id ≡ ok c'
      → (rows : List Row) × (D.select c ≡ ok rows) × (D.select c' ≡ ok (without_id id rows))

module _ (D : Database) (is_dir : FilePath → Bool) where
  new-parent_id :
      (row : Row) (content : Content)
      → content_from_raw D is_dir row.content_id row.relative_path row.revision_id row.parent_id
        ≡ ok content
      → content.parent_id ≡ row.parent_id
  unfolding content_from_raw new
  new-parent_id row content h = elim (Option-cases (file_name row.relative_path)) [
    | inl n ↦ absurd (ground arith)
    | inr (name, f) ↦ elim (Option-cases row.parent_id) [
      | inl p ↦ ground arith
      | inr (parent_id, p) ↦ elim (nat_eq.dec parent_id row.content_id) [
        | yes e ↦ absurd (ground arith)
        | no e ↦ ground arith
      ]
    ]
  ]

  get-forgot :
      (c c' : D.Connection) (id j : ContentId)
      → Deletes D
      → forgot D is_dir c id ≡ ok c'
      → get D is_dir c' j ≡ (if j == id then ok none else get D is_dir c j)
  unfolding get forgot
  get-forgot c c' id j deletes h = elim (Outcome-cases (D.delete c id)) [
    | inl (e, d) ↦ absurd (ground arith)
    | inr (c2, d) ↦
        let (rows, s, s2) = deletes.select-delete c c2 id d in
        elim (nat_eq.dec j id) [
          | yes e ↦ ground (arith, find-without_id id rows)
          | no n ↦ ground (arith, find-without_other id j rows n)
        ]
  ]

  -- The row is one of a content: its path has a name and it is not its own parent.
  abbrev pub IsContent : Row → Type 0
  IsContent row =
      (content : Content) × (content_from_raw D is_dir row.content_id row.relative_path
          row.revision_id row.parent_id
        ≡ ok content)

  abbrev pub IsTable : List Row → Type 0
  IsTable rows = NodupIds rows × All IsContent rows

  -- The table can be read, no id has two rows, and each row is one of a content.
  abbrev pub IsValid : D.Connection → Type 0
  IsValid c = (rows : List Row) × (D.select c ≡ ok rows) × IsTable rows

  without_id-IsTable :
      (id : ContentId) (rows : List Row) → IsTable rows → IsTable (without_id id rows)
  without_id-IsTable id [] h = h
  without_id-IsTable id (r ∷ rows) ((fresh, unique), (content, contents)) =
      let (u, a) = without_id-IsTable id rows (unique, contents) in
      let kept = none-without_id id r.content_id rows fresh in
      elim (Bool-cases (is_id id r)) [
        | inl h ↦ rw h (u, a)
        | inr h ↦ rw h ((kept, u), (content, a))
      ]

  find-IsContent :
      (id : ContentId) (row : Row) (rows : List Row)
      → All IsContent rows
      → find (is_id id) rows ≡ some row
      → IsContent row × (row.content_id ≡ id)
  find-IsContent id row [] a f = absurd (ground arith)
  find-IsContent id row (r ∷ rows) (c, a) f = elim (Bool-cases (is_id id r)) [
    | inl y ↦
        let same : r ≡ row = some-injective r row (ground arith) in
        (subst IsContent same c, ground arith)
    | inr n ↦ find-IsContent id row rows a (ground arith)
  ]

  get-row :
      (c : D.Connection) (id : ContentId) (row : Row) (rows : List Row) (content : Content)
      → D.select c ≡ ok rows
      → find (is_id id) rows ≡ some row
      → content_from_raw D is_dir id row.relative_path row.revision_id row.parent_id ≡ ok content
      → get D is_dir c id ≡ ok (some content)
  unfolding get
  get-row c id row rows content s f e = ground arith

  direct_children_ids-rows :
      (c : D.Connection) (id : ContentId) (rows : List Row) (children : List ContentId)
      → D.select c ≡ ok rows
      → direct_children_ids D is_dir c id ≡ ok children
      → ids_under id rows ≡ children
  unfolding direct_children_ids
  direct_children_ids-rows c id rows children s h = ground arith

  direct_children_complete :
      (c : D.Connection) (id child : ContentId) (children : List ContentId)
      → IsValid c
      → direct_children_ids D is_dir c id ≡ ok children
      → Child (disk_state D is_dir) c child id
      → contains children child ≡ true
  direct_children_complete c id child children (rows, s, (u, a)) h (content, g, p) =
      elim (Option-cases (find (is_id child) rows)) [
        | inl n ↦ absurd (unfold get in ground arith)
        | inr (row, f) ↦
            let ((known, e), same) = find-IsContent child row rows a f in
            let q = new-parent_id row known e in
            let e' =
              subst
                (λ k.
                  content_from_raw D is_dir k row.relative_path row.revision_id row.parent_id
                  ≡ ok known)
                same e in
            let g' = get-row c child row rows known s f e' in
            let under : row.parent_id ≡ some id = ground arith in
            rw (← direct_children_ids-rows c id rows children s h)
              (ids_under_complete id child row rows f under)
      ]

  direct_children_sound :
      (c : D.Connection) (id child : ContentId) (children : List ContentId)
      → IsValid c
      → direct_children_ids D is_dir c id ≡ ok children
      → contains children child ≡ true
      → Child (disk_state D is_dir) c child id
  direct_children_sound c id child children (rows, s, (u, a)) h m =
      let (row, f, p) =
        ids_under_sound id child rows u (rw (direct_children_ids-rows c id rows children s h) m) in
      let ((content, e), same) = find-IsContent child row rows a f in
      let e' =
        subst
          (λ k.
            content_from_raw D is_dir k row.relative_path row.revision_id row.parent_id
            ≡ ok content)
          same e in
      (content, get-row c child row rows content s f e', new-parent_id row content e ∙ p)

  forgot-IsValid :
      (c c' : D.Connection) (id : ContentId)
      → Deletes D
      → IsValid c
      → forgot D is_dir c id ≡ ok c'
      → IsValid c'
  unfolding forgot
  forgot-IsValid c c' id deletes (rows, s, table) h = elim (Outcome-cases (D.delete c id)) [
    | inl (e, d) ↦ absurd (ground arith)
    | inr (c2, d) ↦
        let (rows2, s2, after) = deletes.select-delete c c2 id d in
        let same : rows2 ≡ rows = ground arith in
        let moved : c2 ≡ c' = ground arith in
        (
          without_id id rows,
          ap D.select (sym moved) ∙ after ∙ ap (λ rs. ok (without_id id rs)) same,
          without_id-IsTable id rows table,
        )
  ]

  -- Where the deletion of rows does what SQL says, the disk state meets the assumptions of the recursive removal.
  pub disk_state-IsLawful : Deletes D → IsLawful (disk_state D is_dir) IsValid
  disk_state-IsLawful deletes = record {
    forgot-Valid = λ c c' id v h. forgot-IsValid c c' id deletes v h;
    get-forgot = λ c c' id j h. get-forgot c c' id j deletes h;
    children_complete =
        λ c id child children v h k. direct_children_complete c id child children v h k;
    children_sound = λ c id child children v h k. direct_children_sound c id child children v h k;
  }
