-- ===== src/State/Disk/Rows.antt =====
-- trsync/src/state/disk.rs: what the statements find among rows.
use trsync.Base.{
  Bool, true, not, ◌&&◌, Bool-cases, inl, inr, ◌≡◌, ◌≢◌, refl, none, some, List, [], ◌∷◌, map,
  filter, find, contains, ◌==◌, nat_eq, option_eq, arith,
}
use trsync.Core.Types.{ContentId}
use trsync.State.Disk.{Row}

abbrev pub is_id : ContentId → Row → Bool
is_id id row = row.content_id == id

-- The rows after DELETE … WHERE content_id = ?
abbrev pub without_id : ContentId → List Row → List Row
without_id id = filter (λ r. not (is_id id r))

pub find-without_id :
    (id : ContentId) (rows : List Row) → find (is_id id) (without_id id rows) ≡ none
find-without_id id [] = refl
find-without_id id (r ∷ rows) = elim (Bool-cases (is_id id r)) [
  | inl h ↦ ground (arith, find-without_id id rows)
  | inr h ↦ ground (arith, find-without_id id rows)
]

pub find-without_other :
    (id j : ContentId) (rows : List Row)
    → j ≢ id
    → find (is_id j) (without_id id rows) ≡ find (is_id j) rows
find-without_other id j [] n = refl
find-without_other id j (r ∷ rows) n = elim (Bool-cases (is_id id r)) [
  | inl h ↦ ground (arith, find-without_other id j rows n)
  | inr h ↦ ground (arith, find-without_other id j rows n)
]

abbrev pub NodupIds : List Row → Type 0
NodupIds [] = Unit
NodupIds (row ∷ rows) = (find (is_id row.content_id) rows ≡ none) × NodupIds rows

pub none-without_id :
    (id j : ContentId) (rows : List Row)
    → find (is_id j) rows ≡ none
    → find (is_id j) (without_id id rows) ≡ none
none-without_id id j [] h = refl
none-without_id id j (r ∷ rows) h = elim (Bool-cases (is_id j r)) [
  | inl y ↦ absurd (ground arith)
  | inr n ↦ elim (Bool-cases (is_id id r)) [
    | inl k ↦ ground (arith, none-without_id id j rows)
    | inr k ↦ ground (arith, none-without_id id j rows)
  ]
]

abbrev pub ids_under : ContentId → List Row → List ContentId
ids_under id rows = map (λ (r : Row). r.content_id) (filter (λ r. r.parent_id == some id) rows)

pub ids_under_complete :
    (id child : ContentId) (row : Row) (rows : List Row)
    → find (is_id child) rows ≡ some row
    → row.parent_id ≡ some id
    → contains (ids_under id rows) child ≡ true
ids_under_complete id child row [] f p = absurd (ground arith)
ids_under_complete id child row (r ∷ rows) f p = elim (Bool-cases (is_id child r)) [
  | inl y ↦ ground arith
  | inr n ↦ elim (Bool-cases (r.parent_id == some id)) [
    | inl k ↦ ground (arith, ids_under_complete id child row rows)
    | inr k ↦ ground (arith, ids_under_complete id child row rows)
  ]
]

pub ids_under_sound :
    (id child : ContentId) (rows : List Row)
    → NodupIds rows
    → contains (ids_under id rows) child ≡ true
    → (row : Row) × (find (is_id child) rows ≡ some row) × (row.parent_id ≡ some id)
ids_under_sound id child [] u h = absurd (ground arith)
ids_under_sound id child (r ∷ rows) (fresh, u) h =
    elim (Bool-cases (is_id child r && r.parent_id == some id)) [
      | inl first ↦ (r, ground arith, ground arith)
      | inr later ↦
          let (row, f, p) = ids_under_sound id child rows u (ground arith) in (row, ground arith, p)
    ]
