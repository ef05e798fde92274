-- ===== src/State/Memory/Laws.antt =====
-- What `MemoryState` guarantees, and that it meets the assumptions on a state.
use mathlib.Core.List.{append-nil}
use mathlib.Core.Path.{subst}
use trsync.Base.{
  ℕ, suc, ◌≤◌, ◌≡◌, ◌≢◌, ◌↔◌, refl, ap, sym, ◌∙◌, true, ◌&&◌, none, some, List, [], ◌∷◌, map, ok,
  filter, length, contains, ◌==◌, nat_eq, list_eq, string_eq, option_eq, if◌then◌else◌, arith,
  Option-cases, Bool-cases, Outcome-cases, inl, inr,
}
use trsync.Base.HashMap.{
  HashMap, lookup, insert, remove, values, contains_key, NodupKeys, lookup-insert, lookup-remove,
  remove-NodupKeys, insert-NodupKeys,
}
use trsync.Core.Types.{ContentId, DiskTimestamp, FilePath}
use trsync.Core.Content.{Content}
use trsync.State.Path.{to_path_buf, IsChain, path_loop-IsChain, Falls, path_loop_total}
use trsync.State.Forget.{IsLawful, NoOrphan}
use trsync.State.Memory.{
  MemoryState, parents_known, new, get, path_within, path, search_path, content_id_for_path,
  direct_children_ids, forgot, add, memory_state,
}

-- Each content stands under its own id.
abbrev pub KeysAgree : HashMap ContentId Content → Type 0
KeysAgree [] = Unit
KeysAgree ((k, content) ∷ m) = (content.id ≡ k) × KeysAgree m

abbrev pub IsValid : MemoryState → Type 0
IsValid s = NodupKeys s.contents × KeysAgree s.contents

remove-KeysAgree :
    (k : ContentId) (m : HashMap ContentId Content) → KeysAgree m → KeysAgree (remove k m)
unfolding remove
remove-KeysAgree k [] h = tt
remove-KeysAgree k (_ ∷ m) h = ground (arith, remove-KeysAgree k m h.1)

insert-KeysAgree :
    (k : ContentId) (content : Content) (m : HashMap ContentId Content)
    → content.id ≡ k
    → KeysAgree m
    → KeysAgree (insert k content m)
unfolding insert
insert-KeysAgree k content [] e h = (e, tt)
insert-KeysAgree k content (_ ∷ m) e h = ground (arith, insert-KeysAgree k content m e h.1)

KeysAgree-lookup :
    (k : ContentId) (content : Content) (m : HashMap ContentId Content)
    → KeysAgree m
    → lookup k m ≡ some content
    → content.id ≡ k
KeysAgree-lookup k content [] h e = cc
KeysAgree-lookup k content (_ ∷ m) h e = ground (arith, KeysAgree-lookup k content m h.1)

abbrev child_ids : ContentId → HashMap ContentId Content → List ContentId
child_ids id m = map (λ (c : Content). c.id) (filter (λ c. c.parent_id == some id) (values m))

child_ids_complete :
    (id k : ContentId) (content : Content) (m : HashMap ContentId Content)
    → KeysAgree m
    → lookup k m ≡ some content
    → content.parent_id ≡ some id
    → contains (child_ids id m) k ≡ true
child_ids_complete id k content [] h e p = cc
child_ids_complete id k content ((j, c) ∷ m) h e p =
    ground (arith, child_ids_complete id k content m h.1)

child_ids_sound :
    (id k : ContentId) (m : HashMap ContentId Content)
    → NodupKeys m
    → KeysAgree m
    → contains (child_ids id m) k ≡ true
    → (content : Content) × (lookup k m ≡ some content) × (content.parent_id ≡ some id)
child_ids_sound id k [] n h e = cc
child_ids_sound id k ((j, c) ∷ m) n h e = elim (Bool-cases (k == j && c.parent_id == some id)) [
  | inl first ↦ (c, ground arith, ground arith)
  | inr later ↦
      let (content, l, p) = child_ids_sound id k m n.1 h.1 (ground arith) in
      (content, ground (arith, n.0), p)
]

-- `MemoryState` meets the assumptions of the recursive removal, in a valid state.
pub memory_state-IsLawful : IsLawful memory_state IsValid
unfolding get direct_children_ids forgot
memory_state-IsLawful = record {
  forgot-Valid = λ s s' id v h.
      let same : s'.contents ≡ remove id s.contents = ground arith in
      rw same (remove-NodupKeys id s.contents v.0, remove-KeysAgree id s.contents v.1);
  get-forgot = λ s s' id j h. ground (arith, lookup-remove j id s.contents);
  children_complete =
      λ s id child children v h c. ground (arith, child_ids_complete id child c.0 s.contents v.1);
  children_sound = λ s id child children v h m.
      let (content, l, p) = child_ids_sound id child s.contents v.0 v.1 (ground arith) in
      (content, ap ok l, p);
}

module _ (s : MemoryState) where
  -- After `add` the content is there under its id, and every other content is as it was.
  pub get-add :
      (content : Content) (p : FilePath) (timestamp : DiskTimestamp) (j : ContentId)
      → (t : MemoryState) × (add s content p timestamp ≡ ok t)
        × (get t j ≡ (if j == content.id then ok (some content) else get s j))
        × (IsValid s → IsValid t)
  unfolding get add
  get-add content p timestamp j = (
    record {
      contents = insert content.id content s.contents;
      timestamps = insert content.id timestamp s.timestamps;
    },
    refl,
    ground (arith, lookup-insert j content.id content s.contents),
    λ v. (
      insert-NodupKeys content.id content s.contents v.0,
      insert-KeysAgree content.id content s.contents refl v.1,
    ),
  )

  search_path_sound :
      (p : FilePath) (contents : List Content) (id : ContentId)
      → search_path s p contents ≡ ok (some id)
      → (parts : List Content) × (path s id ≡ ok parts) × (to_path_buf parts ≡ p)
  unfolding search_path
  search_path_sound p [] id h = ground arith
  search_path_sound p (content ∷ rest) id h = elim (Outcome-cases (path s content.id)) [
    | inl (e, q) ↦ absurd (ground arith)
    | inr (parts, q) ↦ elim (list_eq.dec (to_path_buf parts) p) [
      | yes same ↦ (parts, ground arith, same)
      | no other ↦ search_path_sound p rest id (ground arith)
    ]
  ]

  -- A content that is found for a path has that path.
  pub content_id_for_path_sound :
      (p : FilePath) (id : ContentId)
      → content_id_for_path s p ≡ ok (some id)
      → (parts : List Content) × (path s id ≡ ok parts) × (to_path_buf parts ≡ p)
  unfolding content_id_for_path
  content_id_for_path_sound p id h = search_path_sound p (values s.contents) id h

  -- A path is the chain of contents from a root down to the content.
  pub path-IsChain :
      (id : ContentId) (parts : List Content)
      → path s id ≡ ok parts
      → (content : Content) × (get s id ≡ ok (some content)) × IsChain (get s) parts content
  unfolding path path_within
  path-IsChain id parts h = elim (Option-cases (lookup id s.contents)) [
    | inl missing ↦ absurd (ground arith)
    | inr (content, there) ↦
        let (chain, e, c) =
          path_loop-IsChain (get s) (suc (length s.contents)) content [] parts (ground arith) in
        (
          content,
          ap ok there,
          subst (λ (ps : List Content). IsChain (get s) ps content) (sym (e ∙ append-nil chain)) c,
        )
  ]

  -- Where the parents form no cycle, no content is deeper than there are contents, so the fuel of
  -- `path` is enough: the walk ends for every content.
  path_within_total :
      (rank : ContentId → ℕ)
      → Falls (get s) rank
      → ((id : ContentId) → rank id ≤ length s.contents)
      → (id : ContentId) → path_within s (suc (length s.contents)) id ≢ none
  unfolding path_within
  path_within_total rank falls low id = elim (Option-cases (lookup id s.contents)) [
    | inl missing ↦ rw (missing, path_within) (λ h. cc)
    | inr (content, there) ↦
        rw (there, path_within)
          (path_loop_total (get s) rank falls (suc (length s.contents)) id content (content ∷ [])
            (unfold get in ap ok there) (omega (arith, low id)))
  ]

parents_known_sound :
    (all m : HashMap ContentId Content) (j p : ContentId) (content : Content)
    → parents_known all (values m) ≡ true
    → lookup j m ≡ some content
    → content.parent_id ≡ some p
    → contains_key all p ≡ true
unfolding parents_known
parents_known_sound all [] j p content h e q = cc
parents_known_sound all ((k, c) ∷ m) j p content h e q =
    ground (arith, parents_known_sound all m j p content)

parents_known_complete :
    (all m : HashMap ContentId Content)
    → NodupKeys m
    → ((j p : ContentId) (content : Content)
        → lookup j m ≡ some content
        → content.parent_id ≡ some p
        → contains_key all p ≡ true)
    → parents_known all (values m) ≡ true
unfolding parents_known
parents_known_complete all [] n h = refl
parents_known_complete all ((k, c) ∷ m) n h = elim (Option-cases c.parent_id) [
  | inl root ↦ ground (
    arith,
    parents_known_complete all m n.1 (λ j p content e q. h j p content (ground (arith, n.0)) q),
  )
  | inr (parent, e) ↦ ground (
    arith,
    h k parent c,
    parents_known_complete all m n.1 (λ j p content e q. h j p content (ground (arith, n.0)) q),
  )
]

-- `MemoryState::new` accepts exactly the contents whose parents are all among them.
pub new-NoOrphan :
    (contents : HashMap ContentId Content) (timestamps : HashMap ContentId DiskTimestamp)
    → NodupKeys contents
    → let s : MemoryState = record { contents = contents; timestamps = timestamps } in
      (new contents timestamps ≡ ok s) ↔ NoOrphan memory_state s
unfolding new get
new-NoOrphan contents timestamps n = (
  λ h j p (content, found, parent) gone.
      ground (arith, parents_known_sound contents contents j p content),
  λ closed. ground (
    arith,
    parents_known_complete contents contents n
        (λ j p content e q. ground (arith, closed j p (content, ap ok e, q))),
  ),
)
