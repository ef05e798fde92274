-- ===== src/Sync/Remote/Deleted.antt =====
-- trsync/src/sync/remote.rs: which contents `is_deleted` takes for deleted.
use trsync.Base.{
  ℕ, zero, suc, true, false, Bool-cases, Option-cases, ◌≡◌, ◌≢◌, inl, inr, ◌↔◌, refl, Option, none,
  some, List, arith,
}
use trsync.Core.Types.{ContentId}
use trsync.Core.Content.{RemoteContent}
use trsync.Sync.Remote.{gone, content_of, deleted_above, is_deleted}

module _ (all : List RemoteContent) where
  -- Every content from a parent up to a root is among the server's, and neither deleted nor archived.
  pub data Alive : Option ContentId → Type 0 where
    root : Alive none
    child :
        {id : ContentId} {parent : RemoteContent}
        → content_of all id ≡ some parent
        → gone parent ≡ false
        → Alive parent.parent_id
        → Alive (some id)

  deleted_above-false :
      (fuel : ℕ) (p : Option ContentId) → deleted_above all fuel p ≡ some false → Alive p
  unfolding deleted_above
  deleted_above-false fuel none e = root
  deleted_above-false zero (some id) e = absurd (ground arith)
  deleted_above-false (suc fuel) (some id) e = elim (Option-cases (content_of all id)) [
    | inl q ↦ absurd (ground arith)
    | inr (parent, q) ↦ elim (Bool-cases (gone parent)) [
      | inl g ↦ absurd (ground arith)
      | inr g ↦ child q g (deleted_above-false fuel parent.parent_id (ground arith))
    ]
  ]

  deleted_above-Alive :
      (p : Option ContentId) → Alive p → (fuel : ℕ) → deleted_above all fuel p ≢ some true
  unfolding deleted_above
  deleted_above-Alive none root fuel e = ground arith
  deleted_above-Alive (some id) (child q g a) zero e = ground arith
  deleted_above-Alive (some id) (child {parent = parent} q g a) (suc fuel) e =
      deleted_above-Alive parent.parent_id a fuel (ground arith)

  Alive-fuel :
      (p : Option ContentId) → Alive p → (fuel : ℕ) × (deleted_above all fuel p ≡ some false)
  unfolding deleted_above
  Alive-fuel none root = (0, refl)
  Alive-fuel (some id) (child {parent = parent} q g a) =
      let (fuel, e) = Alive-fuel parent.parent_id a in (suc fuel, ground arith)

  -- With some fuel, a content counts as kept exactly where it and all that is above it are among the
  -- server's contents, neither deleted nor archived.
  pub is_deleted-Alive :
      (c : RemoteContent)
      → ((fuel : ℕ) × (is_deleted all fuel c ≡ some false)) ↔ ((gone c ≡ false) × Alive c.parent_id)
  unfolding is_deleted
  is_deleted-Alive c = (
    (λ (fuel, e). elim (Bool-cases (gone c)) [
      | inl g ↦ absurd (ground arith)
      | inr g ↦ (g, deleted_above-false fuel c.parent_id (ground arith))
    ]),
    (λ (g, a). let (fuel, e) = Alive-fuel c.parent_id a in (fuel, ground arith)),
  )

  -- Whatever the fuel, such a content does not count as deleted.
  pub is_deleted-kept :
      (c : RemoteContent) (fuel : ℕ)
      → gone c ≡ false
      → Alive c.parent_id
      → is_deleted all fuel c ≢ some true
  unfolding is_deleted
  is_deleted-kept c fuel g a e = deleted_above-Alive c.parent_id a fuel (ground arith)
