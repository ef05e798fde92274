-- ===== src/State/Path.antt =====
-- The walk from a content up to its root that both states make in `path`, and `ContentPath` of
-- trsync/src/path.rs.
use trsync.Base.{
  ℕ, zero, suc, ◌<◌, ◌≡◌, ◌≢◌, ◌⊎◌, inl, inr, refl, sym, ◌∙◌, Option, none, some, List, [], ◌∷◌,
  ◌++◌, map, Outcome, ok, err, arith,
}
use mathlib.Core.List.{append_assoc}
use trsync.Core.Types.{ContentId, FilePath}
use trsync.Core.Content.{Anyhow, Content}
use trsync.Core.Error.{StateError, unexpected_error}

abbrev pub Parts : Type 0
Parts = Outcome StateError (List Content)

-- `ContentPath::to_path_buf`
unfoldable pub to_path_buf : List Content → FilePath
to_path_buf = map (λ (content : Content). content.file_name)

module _ (get : ContentId → Outcome Anyhow (Option Content)) where
  abbrev found : (Content → Option Parts) → Outcome Anyhow (Option Content) → Option Parts
  found next (err e) = some (err unexpected_error)
  found next (ok none) = some (err unexpected_error)
  found next (ok (some parent)) = next parent

  abbrev up : (Content → Option Parts) → List Content → Option ContentId → Option Parts
  up next parts none = some (ok parts)
  up next parts (some parent_id) = found next (get parent_id)

  -- The `while let` loop: each round puts the parent in front of the parts. `none` only when the
  -- fuel is spent; the source has no such bound, and does not return where the parents form a cycle.
  unfoldable pub path_loop : ℕ → Content → List Content → Option Parts
  path_loop zero current parts = none
  path_loop (suc fuel) current parts =
      up (λ parent. path_loop fuel parent (parent ∷ parts)) parts current.parent_id

  found-eq-ok :
      (next : Content → Option Parts) (r : Outcome Anyhow (Option Content)) (result : List Content)
      → found next r ≡ some (ok result)
      → (parent : Content) × (r ≡ ok (some parent)) × (next parent ≡ some (ok result))
  found-eq-ok next (ok (some parent)) result h = (parent, refl, h)
  found-eq-ok next (ok none) result h = ground arith
  found-eq-ok next (err e) result h = ground arith

  up-eq-ok :
      (next : Content → Option Parts) (parts : List Content) (o : Option ContentId)
      (result : List Content)
      → up next parts o ≡ some (ok result)
      → ((o ≡ none) × (parts ≡ result))
        ⊎ ((p : ContentId) × (parent : Content) × (o ≡ some p)
            × (get p ≡ ok (some parent))
            × (next parent ≡ some (ok result)))
  up-eq-ok next parts none result h = inl (refl, ground arith)
  up-eq-ok next parts (some p) result h =
      let (parent, e, k) = found-eq-ok next (get p) result h in inr (p, parent, refl, e, k)

  found-ne-none :
      (next : Content → Option Parts) (r : Outcome Anyhow (Option Content))
      → ((parent : Content) → r ≡ ok (some parent) → next parent ≢ none)
      → found next r ≢ none
  found-ne-none next (ok (some parent)) g = g parent refl
  found-ne-none next (ok none) g = λ h. cc
  found-ne-none next (err e) g = λ h. cc

  up-ne-none :
      (next : Content → Option Parts) (parts : List Content) (o : Option ContentId)
      → ((p : ContentId) (parent : Content)
          → o ≡ some p
          → get p ≡ ok (some parent)
          → next parent ≢ none)
      → up next parts o ≢ none
  up-ne-none next parts none g = λ h. cc
  up-ne-none next parts (some p) g = found-ne-none next (get p) (λ parent. g p parent refl)

  -- The parts of a path: each is the content that the next one names as its parent.
  pub data IsChain : List Content → Content → Type 0 where
    root : (content : Content) → content.parent_id ≡ none → IsChain (content ∷ []) content
    child :
        {above : List Content} {parent : Content} (content : Content) (parent_id : ContentId)
        → content.parent_id ≡ some parent_id
        → get parent_id ≡ ok (some parent)
        → IsChain above parent
        → IsChain (above ++ (content ∷ [])) content

  -- Where the loop gives parts, those before the ones it was given are the chain of the content.
  pub path_loop-IsChain :
      (fuel : ℕ) (current : Content) (parts result : List Content)
      → path_loop fuel current (current ∷ parts) ≡ some (ok result)
      → (chain : List Content) × (result ≡ chain ++ parts) × IsChain chain current
  unfolding path_loop
  path_loop-IsChain zero current parts result h = cc
  path_loop-IsChain (suc fuel) current parts result h =
      elim (up-eq-ok _ (current ∷ parts) current.parent_id result h) [
        | inl (none_left, e) ↦ (current ∷ [], sym e, root current none_left)
        | inr (p, parent, e, k, rest) ↦
            let (chain, split, c) = path_loop-IsChain fuel parent (current ∷ parts) result rest in
            (
              chain ++ (current ∷ []),
              split ∙ sym (append_assoc chain (current ∷ []) parts),
              child current p e k c,
            )
      ]

  -- Each content's parent has a smaller rank: the parents form no cycle.
  abbrev pub Falls : (ContentId → ℕ) → Type 0
  Falls rank =
      (id p : ContentId) (content parent : Content)
      → get id ≡ ok (some content)
      → content.parent_id ≡ some p
      → get p ≡ ok (some parent)
      → rank p < rank id

  -- Fuel above the rank of a content is enough for the loop that starts there.
  pub path_loop_total :
      (rank : ContentId → ℕ)
      → Falls rank
      → (fuel : ℕ) (id : ContentId) (current : Content) (parts : List Content)
      → get id ≡ ok (some current)
      → rank id < fuel
      → path_loop fuel current parts ≢ none
  unfolding path_loop
  path_loop_total rank falls zero id current parts h low = elim low [ ]
  path_loop_total rank falls (suc fuel) id current parts h low =
      up-ne-none _ parts current.parent_id λ p parent e k.
        path_loop_total rank falls fuel p parent (parent ∷ parts) k
          (omega (arith, falls id p current parent h e k))
