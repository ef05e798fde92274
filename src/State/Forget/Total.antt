-- ===== src/State/Forget/Total.antt =====
-- `forgot_with_children` ends where the parents form no cycle.
use trsync.Base.{ℕ, zero, suc, ◌<◌, ◌≡◌, ◌≢◌, true, none, List, [], ◌∷◌, contains, nat_eq, arith}
use trsync.Core.Types.{ContentId}
use trsync.State.{State, and_then-ne-none, on_ok-ne-none, forgot_each, forgot_with_children}
use trsync.State.Forget.{Child, Shrinks, Child-Shrinks, IsLawful, forgot_valid}

module _ (T : State) where
  -- Each content's parent has a greater rank than the content: the tree has no cycle.
  abbrev pub Ranked : (ContentId → ℕ) → T.Store → Type 0
  Ranked rank s = (j p : ContentId) → Child T s j p → rank j < rank p

  Ranked-Shrinks :
      (rank : ContentId → ℕ) (s s' : T.Store) → Shrinks T s s' → Ranked rank s → Ranked rank s'
  Ranked-Shrinks rank s s' h r j p c = r j p (Child-Shrinks T s s' j p h c)

module _ (T : State) (Valid : T.Store → Type 0) (L : IsLawful T Valid) where
  forgot_each_total :
      (rank : ContentId → ℕ) (fuel : ℕ)
      → ((s : T.Store) (id : ContentId)
          → Valid s
          → Ranked T rank s
          → rank id < fuel
          → forgot_with_children T fuel s id ≢ none)
      → (children : List ContentId) (s : T.Store) → Valid s
      → Ranked T rank s
      → ((c : ContentId) → contains children c ≡ true → rank c < fuel)
      → forgot_each (forgot_with_children T fuel) children s ≢ none
  unfolding forgot_each
  forgot_each_total rank fuel ih [] s v r low = λ h. cc
  forgot_each_total rank fuel ih (c ∷ children) s v r low =
      and_then-ne-none (forgot_with_children T fuel s c) _ (ih s c v r (low c (ground arith)))
        λ t done.
          let (f, vt) = forgot_valid T Valid L fuel s t c v done in
          forgot_each_total rank fuel ih children t vt (Ranked-Shrinks T rank s t f.shrinks r)
            (λ d m. low d (ground arith))

  -- In a valid state, where a parent's rank is above that of its children, fuel above the
  -- content's rank is enough for the call to give an answer.
  pub forgot_with_children_total :
      (rank : ContentId → ℕ) (fuel : ℕ) (s : T.Store) (id : ContentId)
      → Valid s
      → Ranked T rank s
      → rank id < fuel
      → forgot_with_children T fuel s id ≢ none
  unfolding forgot_with_children
  forgot_with_children_total rank zero s id v r low = elim low [ ]
  forgot_with_children_total rank (suc fuel) s id v r low =
      on_ok-ne-none (T.direct_children_ids s id) s _ λ children listed.
        and_then-ne-none (forgot_each (forgot_with_children T fuel) children s) _
          (forgot_each_total rank fuel (forgot_with_children_total rank fuel) children s v r
            (λ c m. omega (arith, r c id (L.children_sound s id c children v listed m))))
          (λ t _ h. cc)
