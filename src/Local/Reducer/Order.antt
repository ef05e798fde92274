-- ===== src/Local/Reducer/Order.antt =====
-- What the reducer keeps: the events of other files, in their order.
use trsync.Base.{◌≡◌, refl, some, List, [], ◌∷◌, ◌++◌, ◌∙◌}
use mathlib.Core.List.{append-nil, append_assoc}
use trsync.Core.Types.{FilePath}
use trsync.Event.{DiskEvent, DiskEventWrap, wrap}
use trsync.Local.Reducer.{keep, react, reduce}

pub reduce-deleted :
    (s p : FilePath) (events kept : List DiskEvent)
    → reduce (wrap s (DiskEvent.deleted p)) events kept
      ≡ (some (wrap s (DiskEvent.deleted p)), kept ++ events)
unfolding reduce react
reduce-deleted s p [] kept = rw append-nil
reduce-deleted s p (e ∷ []) kept = refl
reduce-deleted s p (e ∷ next ∷ events) kept =
    rw (reduce-deleted s p (next ∷ events)) (rw append_assoc)

-- Every event that follows says nothing of the file of the first one.
abbrev pub Unrelated : DiskEvent → List DiskEvent → Type 0
Unrelated e [] = Unit
Unrelated e (x ∷ xs) = (react e x ≡ keep) × Unrelated e xs

pub reduce-Unrelated :
    (current : DiskEventWrap) (events kept : List DiskEvent)
    → Unrelated current.event events
    → reduce current events kept ≡ (some current, kept ++ events)
unfolding reduce
reduce-Unrelated current [] kept h = rw append-nil
reduce-Unrelated current (e ∷ []) kept h = rw (h.0, reduce)
reduce-Unrelated current (e ∷ next ∷ events) kept h =
    rw (h.0, reduce)
      (reduce-Unrelated current (next ∷ events) (kept ++ (e ∷ [])) h.1 ∙ rw append_assoc)
