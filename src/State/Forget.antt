-- ===== src/State/Forget.antt =====
-- `forgot_with_children` removes a content and all below it, and nothing else.
pub mod Total
use mathlib.Core.Path.{subst}
use trsync.Base.{
  ℕ, zero, suc, ◌<◌, ◌≡◌, ◌≢◌, sym, ap, ◌∙◌, ◌⊎◌, inl, inr, true, Option, none, some, List, [], ◌∷◌,
  ok, contains, ◌==◌, nat_eq, if◌then◌else◌, arith,
}
use trsync.Core.Types.{ContentId}
use trsync.Core.Content.{Anyhow, Content}
use trsync.State.{
  State, Changed, and_then-eq-ok, on_ok-eq-ok, and_then-ne-none, on_ok-ne-none, forgot_each,
  forgot_self, forgot_with_children,
}

module _ (T : State) where
  -- `child` is in the state, with `id` as its parent.
  abbrev pub Child : T.Store → ContentId → ContentId → Type 0
  Child s child id =
      (content : Content) × (T.get s child ≡ ok (some content)) × (content.parent_id ≡ some id)

  -- What the two methods that the recursion calls do to what `get` shows, in a valid state.
  pub record IsLawful (Valid : T.Store → Type 0) : Type 0 where
    pub forgot-Valid :
        (s s' : T.Store) (id : ContentId) → Valid s → T.forgot s id ≡ ok s' → Valid s'
    pub get-forgot :
        (s s' : T.Store) (id j : ContentId)
        → T.forgot s id ≡ ok s'
        → T.get s' j ≡ (if j == id then ok none else T.get s j)
    pub children_complete :
        (s : T.Store) (id child : ContentId) (children : List ContentId)
        → Valid s
        → T.direct_children_ids s id ≡ ok children
        → Child s child id
        → contains children child ≡ true
    pub children_sound :
        (s : T.Store) (id child : ContentId) (children : List ContentId)
        → Valid s
        → T.direct_children_ids s id ≡ ok children
        → contains children child ≡ true
        → Child s child id

  -- `j` is `id`, or lies below it.
  pub data Below (s : T.Store) (id : ContentId) : ContentId → Type 0 where
    here : Below s id id
    under : {j p : ContentId} → Child s j p → Below s id p → Below s id j

  -- A parent of a content of the state is in the state.
  abbrev pub NoOrphan : T.Store → Type 0
  NoOrphan s = (j p : ContentId) → Child s j p → T.get s p ≢ ok none

  -- The second state is the first one without some of its contents.
  abbrev pub Shrinks : T.Store → T.Store → Type 0
  Shrinks s s' = (j : ContentId) → (T.get s' j ≡ ok none) ⊎ (T.get s' j ≡ T.get s j)

  Shrinks-trans : (s t u : T.Store) → Shrinks s t → Shrinks t u → Shrinks s u
  Shrinks-trans s t u h k j = ground (arith, h j, k j)

  Child-Shrinks : (s s' : T.Store) (j p : ContentId) → Shrinks s s' → Child s' j p → Child s j p
  Child-Shrinks s s' j p h (content, found, parent) = (content, ground (arith, h j), parent)

  Below-Shrinks : (s s' : T.Store) (id j : ContentId) → Shrinks s s' → Below s' id j → Below s id j
  Below-Shrinks s s' id j h here = here
  Below-Shrinks s s' id j h (under {p = p} c b) =
      under (Child-Shrinks s s' j p h c) (Below-Shrinks s s' id p h b)

  Below-trans :
      (s : T.Store) (id child j : ContentId) → Below s id child → Below s child j → Below s id j
  Below-trans s id child j b here = b
  Below-trans s id child j b (under {p = p} c d) = under c (Below-trans s id child p b d)

  -- What one call guarantees when it succeeds.
  pub record Forgets (s s' : T.Store) (id : ContentId) : Type 0 where
    pub gone : T.get s' id ≡ ok none
    pub shrinks : Shrinks s s'
    pub exact : (j : ContentId) → (T.get s' j ≡ T.get s j) ⊎ Below s id j
    pub closed : NoOrphan s → NoOrphan s'

  -- What the loop over children guarantees.
  record ForgetsEach (s s' : T.Store) (children : List ContentId) : Type 0 where
    gone : (j : ContentId) → contains children j ≡ true → T.get s' j ≡ ok none
    shrinks : Shrinks s s'
    exact :
        (j : ContentId)
        → (T.get s' j ≡ T.get s j)
          ⊎ ((child : ContentId) × (contains children child ≡ true) × Below s child j)
    closed : NoOrphan s → NoOrphan s'

  exact_cons :
      (child : ContentId) (children : List ContentId) (s t s' : T.Store) (j : ContentId)
      → Shrinks s t
      → (T.get t j ≡ T.get s j) ⊎ Below s child j
      → (T.get s' j ≡ T.get t j) ⊎ ((c : ContentId) × (contains children c ≡ true) × Below t c j)
      → (T.get s' j ≡ T.get s j)
        ⊎ ((c : ContentId) × (contains (child ∷ children) c ≡ true) × Below s c j)
  exact_cons child children s t s' j h (inl e) (inl e') = inl (e' ∙ e)
  exact_cons child children s t s' j h (inr b) (inl e') = inr (child, ground arith, b)
  exact_cons child children s t s' j h a (inr (c, m, b)) =
      inr (c, ground arith, Below-Shrinks s t c j h b)

  exact_last :
      (s t s' : T.Store) (id j : ContentId) (children : List ContentId)
      → T.get s' j ≡ (if j == id then ok none else T.get t j)
      → (T.get t j ≡ T.get s j) ⊎ ((c : ContentId) × (contains children c ≡ true) × Below s c j)
      → ((c : ContentId) → contains children c ≡ true → Child s c id)
      → (T.get s' j ≡ T.get s j) ⊎ Below s id j
  exact_last s t s' id j children get (inl e) sound = elim (nat_eq.dec j id) [
    | yes p ↦ inr (subst (Below s id) (sym p) here)
    | no n ↦ inl (ground arith)
  ]
  exact_last s t s' id j children get (inr (c, m, b)) sound =
      inr (Below-trans s id c j (under (sound c m) here) b)

  module _ (Valid : T.Store → Type 0)
      (call : T.Store → ContentId → Option (Changed Anyhow T.Store)) where
    forgot_each-ForgetsEach :
        ((s s' : T.Store) (id : ContentId)
          → Valid s
          → call s id ≡ some (ok tt, s')
          → Forgets s s' id × Valid s')
        → (children : List ContentId) (s s' : T.Store) → Valid s
        → forgot_each call children s ≡ some (ok tt, s')
        → ForgetsEach s s' children × Valid s'
    unfolding forgot_each
    forgot_each-ForgetsEach ih [] s s' v h =
        let same : s ≡ s' = ground arith in
        (
          record {
            gone = λ j e. cc;
            shrinks = λ j. ground arith;
            exact = λ j. inl (ap (λ t. T.get t j) (sym same));
            closed = λ n. subst NoOrphan same n;
          },
          subst Valid same v,
        )
    forgot_each-ForgetsEach ih (child ∷ children) s s' v h =
        let (t, first, rest) = and_then-eq-ok (call s child) (forgot_each call children) s' h in
        let (a, va) = ih s t child v first in
        let (b, vb) = forgot_each-ForgetsEach ih children t s' va rest in
        (
          record {
            gone = λ j e. ground (arith, a.gone, b.gone j, b.shrinks j);
            shrinks = Shrinks-trans s t s' a.shrinks b.shrinks;
            exact = λ j. exact_cons child children s t s' j (a.shrinks) (a.exact j) (b.exact j);
            closed = λ n. b.closed (a.closed n);
          },
          vb,
        )

  forgot_self-eq-ok :
      (s s' : T.Store) (id : ContentId)
      → ◌≡◌ {A = Option (Changed Anyhow T.Store)} (some (forgot_self T s id)) (some (ok tt, s'))
      → T.forgot s id ≡ ok s'
  unfolding forgot_self
  forgot_self-eq-ok s s' id h = ground arith

  module _ (Valid : T.Store → Type 0) (L : IsLawful Valid) where
    forgot_last :
        (s t s' : T.Store) (id : ContentId) (children : List ContentId)
        → Valid s
        → T.direct_children_ids s id ≡ ok children
        → ForgetsEach s t children
        → T.forgot t id ≡ ok s'
        → Forgets s s' id
    forgot_last s t s' id children v listed each done =
        let get : (j : ContentId) → T.get s' j ≡ (if j == id then ok none else T.get t j) =
          λ j. L.get-forgot t s' id j done in
        let last : Shrinks t s' = λ j. ground (arith, get j) in
        let whole : Shrinks s s' = Shrinks-trans s t s' each.shrinks last in
        record {
          gone = ground (arith, get id);
          shrinks = whole;
          exact = λ j.
              exact_last s t s' id j children (get j) (each.exact j)
                (λ child. L.children_sound s id child children v listed);
          closed = λ n j p (content, found, parent) none_left. elim (nat_eq.dec p id) [
            | yes e ↦ ground (
              arith,
              get j,
              each.gone j (
                  L.children_complete s id j children v listed
                    (content, ground (arith, whole j), parent ∙ ap some e)),
            )
            | no ne ↦
                each.closed n j p (content, ground (arith, get j), parent) (ground (arith, get p))
          ];
        }

    forgot_valid :
        (fuel : ℕ) (s s' : T.Store) (id : ContentId)
        → Valid s
        → forgot_with_children T fuel s id ≡ some (ok tt, s')
        → Forgets s s' id × Valid s'
    unfolding forgot_with_children
    forgot_valid zero s s' id v h = cc
    forgot_valid (suc fuel) s s' id v h =
        let (children, listed, loop) = on_ok-eq-ok (T.direct_children_ids s id) s _ s' h in
        let (t, each, last) =
          and_then-eq-ok (forgot_each (forgot_with_children T fuel) children s) _ s' loop in
        let (e, vt) =
          forgot_each-ForgetsEach Valid (forgot_with_children T fuel) (forgot_valid fuel) children s
            t v each in
        let done : T.forgot t id ≡ ok s' = forgot_self-eq-ok t s' id last in
        (forgot_last s t s' id children v listed e done, L.forgot-Valid t s' id vt done)

    -- A call that succeeds has removed the content, removed nothing that does not lie below it,
    -- changed nothing else, and left no content whose parent it removed.
    pub forgot_with_children-Forgets :
        (fuel : ℕ) (s s' : T.Store) (id : ContentId)
        → Valid s
        → forgot_with_children T fuel s id ≡ some (ok tt, s')
        → Forgets s s' id
    forgot_with_children-Forgets fuel s s' id v h = (forgot_valid fuel s s' id v h).0

    -- In a valid state without orphans, a call that succeeds leaves nothing of the content nor of what
    -- lies below it.
    pub forgot_with_children_all :
        (fuel : ℕ) (s s' : T.Store) (id : ContentId)
        → Valid s
        → NoOrphan s
        → forgot_with_children T fuel s id ≡ some (ok tt, s')
        → (j : ContentId) → Below s id j
        → T.get s' j ≡ ok none
    forgot_with_children_all fuel s s' id v n h j here =
        (forgot_with_children-Forgets fuel s s' id v h).gone
    forgot_with_children_all fuel s s' id v n h j (under {p = p} c b) =
        let f = forgot_with_children-Forgets fuel s s' id v h in
        let above = forgot_with_children_all fuel s s' id v n h p b in
        elim (f.shrinks j) [ inl e ↦ e | inr e ↦ absurd (f.closed n j p (c.0, e ∙ c.1, c.2) above) ]
