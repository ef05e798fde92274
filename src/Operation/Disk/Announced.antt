-- ===== src/Operation/Disk/Announced.antt =====
-- trsync/src/operation/executor/disk/present.rs: what a download announces.
use trsync.Base.{
  true, none, some, Option, List, [], ◌∷◌, ◌++◌, Outcome, ok, err, Outcome-cases, inl, inr,
  contains, ◌≡◌, ◌≢◌, refl, sym, ap, ◌∙◌, arith, not,
}
use trsync.Core.Types.{ContentId, FileName, FilePath, ContentType, folder, file, html_document}
use trsync.Core.Content.{Content, RemoteContent, from_remote}
use trsync.Core.Error.{ExecutorError, StateError}
use trsync.Event.{DiskEvent, Event, event_eq}
use trsync.State.{State, StateModification}
use trsync.State.Path.{to_path_buf}
use trsync.Operation.Host.{Host}
use trsync.Operation.Exec.{
  Context, Exec, pure, ◌>>=◌, ◌>>◌, lift, attempt, call, look, push, when, context,
}
use trsync.Operation.Exec.Keeps.{Keeps, Kept, keeps_rules}
use trsync.Operation.Disk.{
  local_event, ensure_file, ensure_content, below_parent, parent_error, present_on_disk,
}

pub contains-last : (events : List Event) (e : Event) → contains (events ++ (e ∷ [])) e ≡ true
contains-last [] e = ground arith
contains-last (x ∷ events) e = ground (arith, contains-last events e)

module _ {H : Host} (e : Event) where
  -- Where the run succeeds, it has announced the event.
  pub record Announces {ℓ} {A : Type ℓ} (m : Exec H A) : Type ℓ where
    pub done : (c c' : Context H) (a : A) → m c ≡ (ok a, c') → contains c'.ignore_events e ≡ true

module _ {H : Host} (e : Event) where
  Announces-push : Announces {H = H} e (push e)
  unfolding push
  Announces-push = record {
    done = λ c c' a p.
        ap (λ r. contains r.1.ignore_events e) (sym p) ∙ contains-last c.ignore_events e;
  }

module _ {H : Host} {e : Event} where
  Announces-bind {ℓ κ} :
      {A : Type ℓ} {B : Type κ} (m : Exec H A) (f : A → Exec H B)
      → ((a : A) → Announces e (f a))
      → Announces e (m >>= f)
  unfolding ◌>>=◌
  Announces-bind m f h = record {
    done = λ c c' b p. elim (Outcome-cases (m c).0) [
      | inl (error, q) ↦ absurd (ground arith)
      | inr (a, q) ↦ (h a).done (m c).1 c' b (ground arith)
    ];
  }

  Announces-then {ℓ κ} :
      {A : Type ℓ} {B : Type κ} (m : Exec H A) (n : Exec H B) → Announces e n → Announces e (m >> n)
  unfolding ◌>>◌
  Announces-then m n h = Announces-bind m (λ _. n) (λ _. h)

  -- What follows keeps the announcement.
  Announces-before {ℓ κ} :
      {A : Type ℓ} {B : Type κ} (m : Exec H A) (n : Exec H B)
      → Announces e m
      → Keeps (Kept e) n
      → Announces e (m >> n)
  unfolding ◌>>◌ ◌>>=◌ Kept
  Announces-before m n h k = record {
    done = λ c c' b p. elim (Outcome-cases (m c).0) [
      | inl (error, q) ↦ absurd (ground arith)
      | inr (a, q) ↦ ground (arith, k.at (m c).1 (h.done c (m c).1 a (ground arith)))
    ];
  }

module _ {H : Host} where
  ensure_file-Announces :
      (id : ContentId) (path absolute_path : FilePath)
      → Announces {H = H}
          (local_event path (DiskEvent.modified path))
          (ensure_file id path absolute_path)
  unfolding ensure_file
  ensure_file-Announces id path absolute_path =
      search (Announces-push, Announces-bind, Announces-then) depth 20

  ensure_content-Announces :
      (t : ContentType) (id : ContentId) (path absolute_path : FilePath)
      → t ≢ folder
      → Announces {H = H}
          (local_event path (DiskEvent.modified path))
          (ensure_content t id path absolute_path)
  unfolding ensure_content
  ensure_content-Announces folder id path absolute_path n = absurd (n refl)
  ensure_content-Announces file id path absolute_path n =
      ensure_file-Announces id path absolute_path
  ensure_content-Announces html_document id path absolute_path n =
      ensure_file-Announces id path absolute_path

module _ (H : Host) (T : State) (workspace_folder : FilePath) (s : T.Store) where
  -- The path of a content whose parent is the given one.
  unfoldable pub path_below : Option ContentId → FileName → Outcome StateError FilePath
  path_below none name = ok (name ∷ [])
  path_below (some parent_id) name = elim (T.path s parent_id) [
    | ok parts ↦ ok (to_path_buf parts ++ (name ∷ []))
    | err e ↦ err e
  ]

  -- `present_on_disk`, once the content and its path are known.
  unfoldable arrival : ContentId → Content → FilePath → Exec H (List StateModification)
  arrival id content content_path = do
    let absolute_path = workspace_folder ++ content_path
    there ← look (λ w. H.exists w absolute_path)
    when (not there) (push (local_event content_path (DiskEvent.created content_path)))
    ensure_content content.type_ id content_path absolute_path
    time ← look (λ w. H.last_modified_timestamp w absolute_path)
    disk_timestamp ← lift context time
    pure (StateModification.add content content_path disk_timestamp ∷ [])

  arrival-Announces :
      (id : ContentId) (content : Content) (path : FilePath)
      → content.type_ ≢ folder
      → Announces (local_event path (DiskEvent.modified path)) (arrival id content path)
  unfolding arrival
  arrival-Announces id content path n = Announces-bind _ _ (λ there. Announces-then _ _ (
      Announces-before _ _
        (ensure_content-Announces content.type_ id path (workspace_folder ++ path) n)
        (search keeps_rules depth 20)))

  below_parent-path :
      (f : ContentId → StateError → ExecutorError) (parent : Option ContentId) (name : FileName)
      (path : FilePath) (c : Context H)
      → path_below parent name ≡ ok path
      → below_parent H T workspace_folder s f parent name c ≡ (ok path, c)
  unfolding path_below below_parent ◌>>=◌ lift pure
  below_parent-path f none name path c p = ground arith
  below_parent-path f (some parent_id) name path c p = elim (Outcome-cases (T.path s parent_id)) [
    | inl (e, q) ↦ absurd (ground arith)
    | inr (parts, q) ↦ ground arith
  ]

  present_on_disk-arrival :
      (id : ContentId) (raw : RemoteContent) (content : Content) (path : FilePath) (w : H.World)
      (c : Context H)
      → H.get_content id c.world ≡ (ok raw, w)
      → from_remote raw ≡ ok content
      → path_below content.parent_id content.file_name ≡ ok path
      → present_on_disk H T workspace_folder s id c
        ≡ arrival id content path (record c { world = w })
  unfolding present_on_disk arrival ◌>>=◌ lift call attempt
  present_on_disk-arrival id raw content path w c p q r =
      rw
        (
          present_on_disk,
          p,
          q,
          below_parent-path (parent_error H T workspace_folder s id) content.parent_id
              content.file_name path (record c { world = w }) r,
        )
        refl

  -- The arrival of a content that is no folder, where it succeeds, has announced the modification of its path.
  pub present_on_disk-announced :
      (id : ContentId) (raw : RemoteContent) (content : Content) (path : FilePath) (w : H.World)
      (c c' : Context H) (changes : List StateModification)
      → H.get_content id c.world ≡ (ok raw, w)
      → from_remote raw ≡ ok content
      → path_below content.parent_id content.file_name ≡ ok path
      → content.type_ ≢ folder
      → present_on_disk H T workspace_folder s id c ≡ (ok changes, c')
      → contains c'.ignore_events (local_event path (DiskEvent.modified path)) ≡ true
  present_on_disk-announced id raw content path w c c' changes p q r n run =
      (arrival-Announces id content path n).done (record c { world = w }) c' changes
        (sym (present_on_disk-arrival id raw content path w c p q r) ∙ run)
