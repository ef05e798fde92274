-- ===== src/Sync/Remote/Quiet.antt =====
-- trsync/src/sync/remote.rs: when the server has no changes.
use trsync.Base.{
  true, Bool-cases, Option-cases, Outcome-cases, ◌≡◌, ◌↔◌, ◌⊎◌, inl, inr, refl, some, List, [], ◌∷◌,
  ok, contains, nat_eq, All, arith,
}
use trsync.Base.HashMap.{contains_key}
use trsync.Core.Types.{ContentId}
use trsync.Core.Content.{Content}
use trsync.State.Disk.{Row}
use trsync.State.Memory.{MemoryState, path, contents}
use trsync.Sync.Remote.{row_of, change, changes_of, disappeared, changes}

module _ (ignored : List ContentId) (rows : List Row) (s : MemoryState) where
  -- The content is ignored, or it has a path and a row of its revision.
  abbrev pub UpToDate : Content → Type 0
  UpToDate content =
      (contains ignored content.id ≡ true)
      ⊎ ((parts : List Content) × (row : Row) × (path s content.id ≡ ok parts)
          × (row_of ignored rows content.id ≡ some row)
          × (content.revision_id ≡ row.revision_id))

  changes_of-UpToDate :
      (all : List Content) → All UpToDate all → changes_of ignored rows s all ≡ ok []
  unfolding changes_of change
  changes_of-UpToDate [] h = refl
  changes_of-UpToDate (content ∷ rest) (inl i, h) = ground (arith, changes_of-UpToDate rest h)
  changes_of-UpToDate (content ∷ rest) (inr (parts, row, p, r, e), h) =
      elim (Bool-cases (contains ignored content.id)) [
        | inl i ↦ ground (arith, changes_of-UpToDate rest h)
        | inr i ↦ ground (arith, changes_of-UpToDate rest h)
      ]

  changes_of-quiet : (all : List Content) → changes_of ignored rows s all ≡ ok [] → All UpToDate all
  unfolding changes_of change
  changes_of-quiet [] h = tt
  changes_of-quiet (content ∷ rest) h = elim (Bool-cases (contains ignored content.id)) [
    | inl i ↦ (inl i, changes_of-quiet rest (ground arith))
    | inr i ↦ elim (Outcome-cases (path s content.id)) [
      | inl (e, p) ↦ absurd (ground arith)
      | inr (parts, p) ↦ elim (Outcome-cases (changes_of ignored rows s rest)) [
        | inl (e, q) ↦ absurd (ground arith)
        | inr (cs, q) ↦ elim (Option-cases (row_of ignored rows content.id)) [
          | inl r ↦ absurd (ground arith)
          | inr (row, r) ↦ elim (nat_eq.dec content.revision_id row.revision_id) [
            | yes e ↦ (inr (parts, row, p, r, e), changes_of-quiet rest (ground arith))
            | no n ↦ absurd (ground arith)
          ]
        ]
      ]
    ]
  ]

  -- The row's content is in the state.
  abbrev pub OnServer : Row → Type 0
  OnServer row = contains_key s.contents row.content_id ≡ true

  disappeared-OnServer :
      (some_rows : List Row) → All OnServer some_rows → disappeared ignored rows s some_rows ≡ []
  unfolding disappeared
  disappeared-OnServer [] h = refl
  disappeared-OnServer (row ∷ rest) (k, h) = ground (arith, disappeared-OnServer rest h)

  disappeared-quiet :
      (some_rows : List Row) → disappeared ignored rows s some_rows ≡ [] → All OnServer some_rows
  unfolding disappeared
  disappeared-quiet [] h = tt
  disappeared-quiet (row ∷ rest) h = elim (Bool-cases (contains_key s.contents row.content_id)) [
    | inl k ↦ (k, disappeared-quiet rest (ground arith))
    | inr k ↦ absurd (ground arith)
  ]

  -- The server has no changes exactly where each of its contents is ignored, or has a path and is known in its
  -- revision, and each known content is on the server.
  pub changes-OnServer :
      (all : List Content)
      → contents s ≡ ok all
      → (changes ignored rows s ≡ ok []) ↔ (All UpToDate all × All OnServer rows)
  unfolding changes
  changes-OnServer all c =
      let firsts = changes_of ignored rows s all in
      (
        λ h. elim (Outcome-cases firsts) [
          | inl (e, q) ↦ absurd (ground arith)
          | inr ([], q) ↦ (changes_of-quiet all q, disappeared-quiet rows (ground arith))
          | inr (d ∷ ds, q) ↦ absurd (ground arith)
        ],
        λ (u, o). ground (arith, changes_of-UpToDate all u, disappeared-OnServer rows o),
      )
