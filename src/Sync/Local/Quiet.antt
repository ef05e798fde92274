-- ===== src/Sync/Local/Quiet.antt =====
-- trsync/src/sync/local.rs: when the folder has no changes.
use trsync.Base.{
  true, false, not, filter, Bool, if◌then◌else◌, ap, contains-filter, Bool-cases, Option-cases,
  Outcome-cases, ◌≡◌, ◌↔◌, ◌⊎◌, inl, inr, refl, sym, none, some, List, [], ◌∷◌, ◌++◌, map, ok,
  contains, list_eq, string_eq, nat_eq, arith,
}
use mathlib.Core.List.{nil≢cons}
use mathlib.Core.Path.{subst}
use trsync.Core.Types.{FilePath, DiskTimestamp}
use trsync.State.Disk.{Row}
use trsync.Sync.Local.{
  DirEntry, row_of, previously_known, previously_known_disk_timestamp, change, changes_from_disk,
  changes_from_db, changes, ignore_file, hidden, walk, disk_relative_paths,
}

module _ (rows : List Row) where
  -- The entry has a row, its time can be read, and it is a folder or has the row's time.
  unfoldable pub UpToDate : DirEntry → Type 0
  UpToDate entry =
      (row : Row) × (time : DiskTimestamp) × (row_of rows entry.relative_path ≡ some row)
      × (entry.last_modified ≡ ok time)
      × ((entry.is_dir ≡ true) ⊎ (time ≡ row.last_modified_timestamp))

  change-UpToDate : (entry : DirEntry) → UpToDate entry → change rows entry ≡ ok none
  unfolding change previously_known previously_known_disk_timestamp UpToDate nat_eq
  change-UpToDate entry (row, time, p, q, inl dir) = ground arith
  change-UpToDate entry (row, time, p, q, inr same) = elim (Bool-cases entry.is_dir) [
    | inl d ↦ ground arith
    | inr d ↦ ground arith
  ]

  change-none : (entry : DirEntry) → change rows entry ≡ ok none → UpToDate entry
  unfolding change previously_known previously_known_disk_timestamp UpToDate
  change-none entry p = elim (Option-cases (row_of rows entry.relative_path)) [
    | inl q ↦ absurd (ground arith)
    | inr (row, q) ↦ elim (Outcome-cases entry.last_modified) [
      | inl (e, r) ↦ absurd (ground arith)
      | inr (time, r) ↦ (
        row,
        time,
        q,
        r,
        elim (Bool-cases entry.is_dir) [
          | inl d ↦ inl d
          | inr d ↦ elim (nat_eq.dec time row.last_modified_timestamp) [
            | yes e ↦ inr e
            | no n ↦ absurd (ground arith)
          ]
        ],
      )
    ]
  ]

  unfoldable AllUpToDate : List DirEntry → Type 0
  AllUpToDate [] = Unit
  AllUpToDate (entry ∷ rest) = UpToDate entry × AllUpToDate rest

  changes_from_disk-AllUpToDate :
      (entries : List DirEntry) → AllUpToDate entries → changes_from_disk rows entries ≡ ok []
  unfolding changes_from_disk AllUpToDate
  changes_from_disk-AllUpToDate [] _ = refl
  changes_from_disk-AllUpToDate (entry ∷ rest) (u, us) =
      ground (arith, change-UpToDate entry u, changes_from_disk-AllUpToDate rest us)

  changes_from_disk-none :
      (entries : List DirEntry) → changes_from_disk rows entries ≡ ok [] → AllUpToDate entries
  unfolding changes_from_disk AllUpToDate
  changes_from_disk-none [] _ = tt
  changes_from_disk-none (entry ∷ rest) p = elim (Outcome-cases (change rows entry)) [
    | inl (e, q) ↦ absurd (ground arith)
    | inr (some c, q) ↦ elim (Outcome-cases (changes_from_disk rows rest)) [
      | inl (e, r) ↦ absurd (ground arith)
      | inr (cs, r) ↦ absurd (ground arith)
    ]
    | inr (none, q) ↦ elim (Outcome-cases (changes_from_disk rows rest)) [
      | inl (e, r) ↦ absurd (ground arith)
      | inr (cs, r) ↦ (change-none entry q, changes_from_disk-none rest (ground arith))
    ]
  ]

-- The path of every row is among these.
unfoldable Among : List FilePath → List Row → Type 0
Among paths [] = Unit
Among paths (row ∷ rest) = (contains paths row.relative_path ≡ true) × Among paths rest

changes_from_db-Among :
    (rows : List Row) (paths : List FilePath) → Among paths rows → changes_from_db rows paths ≡ []
unfolding changes_from_db Among
changes_from_db-Among [] paths _ = refl
changes_from_db-Among (row ∷ rest) paths (p, ps) =
    ground (arith, changes_from_db-Among rest paths ps)

changes_from_db-none :
    (rows : List Row) (paths : List FilePath) → changes_from_db rows paths ≡ [] → Among paths rows
unfolding changes_from_db Among
changes_from_db-none [] paths _ = tt
changes_from_db-none (row ∷ rest) paths p = elim (Bool-cases (contains paths row.relative_path)) [
  | inl q ↦ (q, changes_from_db-none rest paths (ground arith))
  | inr q ↦ absurd (ground arith)
]

append-empty : {A : Type 0} (xs ys : List A) → xs ++ ys ≡ [] → (xs ≡ []) × (ys ≡ [])
append-empty [] ys p = (refl, p)
append-empty (x ∷ xs) ys p = absurd (nil≢cons (sym p))

changes-walked :
    (rows : List Row) (workspace_path : FilePath) (entries : List DirEntry)
    → (changes rows workspace_path entries ≡ ok []) ↔ (
        AllUpToDate rows (walk workspace_path entries)
        × Among (disk_relative_paths workspace_path entries) rows)
unfolding changes
changes-walked rows workspace_path entries =
    let paths = disk_relative_paths workspace_path entries in
    (
      (λ p. elim (Outcome-cases (changes_from_disk rows (walk workspace_path entries))) [
        | inl (e, q) ↦ absurd (ground arith)
        | inr (cs, q) ↦
            let both = append-empty cs (changes_from_db rows paths) (ground arith) in
            (
              changes_from_disk-none rows (walk workspace_path entries) (ground arith),
              changes_from_db-none rows paths both.1,
            )
      ]),
      (λ (d, r). ground (
        arith,
        changes_from_disk-AllUpToDate rows (walk workspace_path entries) d,
        changes_from_db-Among rows paths r,
      )),
    )

module _ (rows : List Row) where
  -- Each entry is hidden or up to date.
  unfoldable pub InSync : List DirEntry → Type 0
  InSync [] = Unit
  InSync (entry ∷ rest) = ((hidden entry.relative_path ≡ true) ⊎ UpToDate rows entry) × InSync rest

  walked-InSync :
      (entries : List DirEntry)
      → InSync entries
      → AllUpToDate rows (filter (λ (entry : DirEntry). not (hidden entry.relative_path)) entries)
  unfolding InSync AllUpToDate
  walked-InSync [] _ = tt
  walked-InSync (entry ∷ rest) (u, us) = elim (Bool-cases (hidden entry.relative_path)) [
    | inl h ↦ rw h (walked-InSync rest us)
    | inr h ↦ elim u [ inl e ↦ absurd (ground arith) | inr up ↦ rw h (up, walked-InSync rest us) ]
  ]

  walked_first :
      (b : Bool) (entry : DirEntry) (rest : List DirEntry)
      → AllUpToDate rows (if not b then entry ∷ rest else rest)
      → ((b ≡ true) ⊎ UpToDate rows entry) × AllUpToDate rows rest
  unfolding AllUpToDate
  walked_first true entry rest us = (inl refl, us)
  walked_first false entry rest (u, us) = (inr u, us)

  InSync-walked :
      (entries : List DirEntry)
      → AllUpToDate rows (filter (λ (entry : DirEntry). not (hidden entry.relative_path)) entries)
      → InSync entries
  unfolding InSync
  InSync-walked [] _ = tt
  InSync-walked (entry ∷ rest) us =
      let (u, later) =
        walked_first (hidden entry.relative_path) entry
          (filter (λ (entry : DirEntry). not (hidden entry.relative_path)) rest) us in
      (u, InSync-walked rest later)

map-filter :
    (entries : List DirEntry)
    → map
        (λ (entry : DirEntry). entry.relative_path)
        (filter (λ (entry : DirEntry). not (hidden entry.relative_path)) entries)
      ≡ filter (λ p. not (hidden p)) (map (λ (entry : DirEntry). entry.relative_path) entries)
map-filter [] = refl
map-filter (entry ∷ rest) = elim (Bool-cases (hidden entry.relative_path)) [
  | inl h ↦ ground (arith, map-filter rest)
  | inr h ↦ ground (arith, map-filter rest)
]

-- The path of each row is on the disk and not hidden.
unfoldable pub OnDisk : List FilePath → List Row → Type 0
OnDisk paths [] = Unit
OnDisk paths (row ∷ rest) =
    (contains paths row.relative_path ≡ true)
    × (hidden row.relative_path ≡ false)
    × OnDisk paths rest

-- The paths of the folder and what is in it.
abbrev pub paths_of : List DirEntry → List FilePath
paths_of entries = [] ∷ map (λ (entry : DirEntry). entry.relative_path) entries

walked_paths :
    (workspace_path : FilePath) (entries : List DirEntry)
    → ignore_file workspace_path ≡ false
    → disk_relative_paths workspace_path entries ≡ filter (λ p. not (hidden p)) (paths_of entries)
unfolding disk_relative_paths walk hidden
walked_paths workspace_path entries seen =
    rw (disk_relative_paths, walk, seen) (ap (λ ps. [] ∷ ps) (map-filter entries))

Among-OnDisk :
    (paths : List FilePath) (rows : List Row)
    → Among (filter (λ p. not (hidden p)) paths) rows ↔ OnDisk paths rows
unfolding Among OnDisk
Among-OnDisk paths [] = ((λ _. tt), (λ _. tt))
Among-OnDisk paths (row ∷ rest) = (
  (λ (p, ps). (
    ground (arith, contains-filter (λ q. not (hidden q)) paths row.relative_path),
    ground (arith, contains-filter (λ q. not (hidden q)) paths row.relative_path),
    (Among-OnDisk paths rest).0 ps,
  )),
  (λ (p, h, ps). (
    ground (arith, contains-filter (λ q. not (hidden q)) paths row.relative_path),
    (Among-OnDisk paths rest).1 ps,
  )),
)

-- Where the name of the synchronized folder is not one that is ignored, the folder has no changes exactly where
-- each entry that is neither ignored nor below an ignored one has a row, with its time unless it is a folder, and
-- the path of each row is that of the folder or of such an entry.
pub changes-quiet :
    (rows : List Row) (workspace_path : FilePath) (entries : List DirEntry)
    → ignore_file workspace_path ≡ false
    → (changes rows workspace_path entries ≡ ok [])
      ↔ (InSync rows entries × OnDisk (paths_of entries) rows)
unfolding walk
changes-quiet rows workspace_path entries seen =
    let walked = changes-walked rows workspace_path entries in
    let same = walked_paths workspace_path entries seen in
    let visible : walk workspace_path entries
        ≡ filter (λ (entry : DirEntry). not (hidden entry.relative_path)) entries =
      rw (walk, seen) refl in
    let both = Among-OnDisk (paths_of entries) rows in
    (
      (λ p.
          let (u, a) = walked.0 p in
          (
            InSync-walked rows entries (subst (AllUpToDate rows) visible u),
            both.0 (subst (λ ps. Among ps rows) same a),
          )),
      (λ (u, a). walked.1 (
        subst (AllUpToDate rows) (sym visible) (walked-InSync rows entries u),
        subst (λ ps. Among ps rows) (sym same) (both.1 a),
      )),
    )
