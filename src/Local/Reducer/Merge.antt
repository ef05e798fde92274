-- ===== src/Local/Reducer/Merge.antt =====
-- What becomes of a run of events of one file.
use trsync.Base.{
  ◌≡◌, Option, none, some, List, [], ◌∷◌, ◌++◌, arith, ◌==◌, list_eq, string_eq, if◌then◌else◌, ◌∙◌,
}
use trsync.Core.Types.{FilePath}
use trsync.Event.{DiskEvent, DiskEventWrap, wrap, from_disk_event}
use trsync.Local.Reducer.Order.{reduce-deleted, Unrelated, reduce-Unrelated}
use trsync.Local.Reducer.{react, reduce, next_event}

-- Where a file ends up whose modifications and renamings are all of the events; `none` where an
-- event is about another file, or is none of these.
unfoldable pub follow : FilePath → List DiskEvent → Option FilePath
follow p [] = some p
follow p (DiskEvent.modified x ∷ events) =
    let rest = follow p events in if p == x then rest else none
follow p (DiskEvent.renamed x y ∷ events) =
    let rest = follow y events in if x == p then rest else none
follow p (e ∷ events) = none

module _ (stored q : FilePath) where
  reduce-created :
      (p : FilePath) (events kept : List DiskEvent)
      → follow p events ≡ some q
      → reduce (wrap stored (DiskEvent.created p)) events kept
        ≡ (some (wrap stored (DiskEvent.created q)), kept)
  unfolding reduce react follow
  reduce-created p [] kept h = ground arith
  reduce-created p (DiskEvent.modified x ∷ []) kept h = ground arith
  reduce-created p (DiskEvent.renamed x y ∷ []) kept h = ground arith
  reduce-created p (DiskEvent.modified x ∷ next ∷ events) kept h =
      ground (arith, reduce-created p (next ∷ events) kept)
  reduce-created p (DiskEvent.renamed x y ∷ next ∷ events) kept h =
      ground (arith, reduce-created y (next ∷ events) kept)
  reduce-created p (e ∷ events) kept h = ground arith

  reduce-modified :
      (p : FilePath) (events kept : List DiskEvent)
      → follow p events ≡ some q
      → reduce (wrap stored (DiskEvent.modified p)) events kept
        ≡ (some (wrap stored (DiskEvent.modified q)), kept)
  unfolding reduce react follow
  reduce-modified p [] kept h = ground arith
  reduce-modified p (DiskEvent.modified x ∷ []) kept h = ground arith
  reduce-modified p (DiskEvent.renamed x y ∷ []) kept h = ground arith
  reduce-modified p (DiskEvent.modified x ∷ next ∷ events) kept h =
      ground (arith, reduce-modified p (next ∷ events) kept)
  reduce-modified p (DiskEvent.renamed x y ∷ next ∷ events) kept h =
      ground (arith, reduce-modified y (next ∷ events) kept)
  reduce-modified p (e ∷ events) kept h = ground arith

-- The source path of the last renaming, `a` if there is none.
unfoldable pub last_source : FilePath → List DiskEvent → FilePath
last_source a [] = a
last_source a (DiskEvent.renamed x y ∷ events) = last_source x events
last_source a (e ∷ events) = last_source a events

module _ (stored q : FilePath) where
  reduce-renamed :
      (a p : FilePath) (events kept : List DiskEvent)
      → follow p events ≡ some q
      → reduce (wrap stored (DiskEvent.renamed a p)) events kept
        ≡ (some (wrap stored (DiskEvent.renamed (last_source a events) q)), kept)
  unfolding reduce react follow last_source
  reduce-renamed a p [] kept h = ground arith
  reduce-renamed a p (DiskEvent.modified x ∷ []) kept h = ground arith
  reduce-renamed a p (DiskEvent.renamed x y ∷ []) kept h = ground arith
  reduce-renamed a p (DiskEvent.modified x ∷ next ∷ events) kept h =
      ground (arith, reduce-renamed a p (next ∷ events) kept)
  reduce-renamed a p (DiskEvent.renamed x y ∷ next ∷ events) kept h =
      ground (arith, reduce-renamed x y (next ∷ events) kept)
  reduce-renamed a p (e ∷ events) kept h = ground arith

-- The events that come later are met by what the former ones leave.
module _ (m : DiskEvent) (later : List DiskEvent) where
  pub reduce-append :
      (current : DiskEventWrap) (events kept : List DiskEvent) (w : DiskEventWrap)
      (k : List DiskEvent)
      → reduce current events kept ≡ (some w, k)
      → reduce current (events ++ (m ∷ later)) kept ≡ reduce w (m ∷ later) k
  unfolding reduce
  reduce-append current [] kept w k h = cc
  reduce-append current (test ∷ []) kept w k h = ground arith
  reduce-append current (test ∷ next ∷ events) kept w k h = grind (
    arith,
    reduce-append current (next ∷ events) (kept ++ (test ∷ [])) w k,
    reduce-append current (next ∷ events) kept w k,
    λ (e : DiskEvent). reduce-append (wrap current.stored_path e) (next ∷ events) kept w k,
    reduce-append (from_disk_event next) events kept w k,
  )

cancel-created :
    (stored q : FilePath) (later : List DiskEvent)
    → reduce (wrap stored (DiskEvent.created q)) (DiskEvent.deleted q ∷ later) [] ≡ next_event later
unfolding next_event reduce react
cancel-created stored q [] = ground arith
cancel-created stored q (e ∷ later) = ground arith

delete-modified :
    (stored q : FilePath) (later : List DiskEvent)
    → reduce (wrap stored (DiskEvent.modified q)) (DiskEvent.deleted q ∷ later) []
      ≡ (some (wrap stored (DiskEvent.deleted q)), later)
unfolding reduce react
delete-modified stored q [] = ground arith
delete-modified stored q (e ∷ later) = ground (arith, reduce-deleted stored q (e ∷ later) [])

delete-renamed :
    (stored a q : FilePath) (later : List DiskEvent)
    → reduce (wrap stored (DiskEvent.renamed a q)) (DiskEvent.deleted q ∷ later) []
      ≡ (some (wrap stored (DiskEvent.deleted q)), later)
unfolding reduce react
delete-renamed stored a q [] = ground arith
delete-renamed stored a q (e ∷ later) = ground (arith, reduce-deleted stored q (e ∷ later) [])

module _ (a p q : FilePath) (events : List DiskEvent) (run : follow p events ≡ some q) where
  -- Where all that is pending is a creation, a modification or a renaming of a file and then
  -- modifications and renamings of it that lead to `q`, the reducer gives one event, of the first
  -- one's kind, with the first one's stored path and the last path, and nothing stays pending.
  pub next_event-follow :
      (next_event (DiskEvent.created p ∷ events) ≡ (some (wrap p (DiskEvent.created q)), []))
      × (next_event (DiskEvent.modified p ∷ events) ≡ (some (wrap p (DiskEvent.modified q)), []))
      × (next_event (DiskEvent.renamed a p ∷ events)
          ≡ (some (wrap a (DiskEvent.renamed (last_source a events) q)), []))
  unfolding next_event from_disk_event
  next_event-follow = (
    reduce-created p q p events [] run,
    reduce-modified p q p events [] run,
    reduce-renamed a q a p events [] run,
  )

  -- Where a creation, a modification or a renaming of a file is followed by modifications and renamings of it and
  -- then by its deletion, a run that began with the creation leaves no trace, and any other is one
  -- deletion under the first stored path; what follows is kept as it is.
  pub next_event-follow-deleted :
      (later : List DiskEvent)
      → (next_event (DiskEvent.created p ∷ (events ++ (DiskEvent.deleted q ∷ later)))
          ≡ next_event later)
        × (next_event (DiskEvent.modified p ∷ (events ++ (DiskEvent.deleted q ∷ later)))
            ≡ (some (wrap p (DiskEvent.deleted q)), later))
        × (next_event (DiskEvent.renamed a p ∷ (events ++ (DiskEvent.deleted q ∷ later)))
            ≡ (some (wrap a (DiskEvent.deleted q)), later))
  unfolding next_event from_disk_event
  next_event-follow-deleted later = (
    reduce-append (DiskEvent.deleted q) later _ events [] _ _ (reduce-created p q p events [] run)
        ∙ cancel-created p q later,
    reduce-append (DiskEvent.deleted q) later _ events [] _ _ (reduce-modified p q p events [] run)
        ∙ delete-modified p q later,
    reduce-append (DiskEvent.deleted q) later _ events [] _ _ (reduce-renamed a q a p events [] run)
        ∙ delete-renamed a _ q later,
  )

-- A modification right after a renaming of the file is dropped: the reducer answers as if it had
-- not happened.
pub next_event-renamed-modified :
    (a b : FilePath) (events : List DiskEvent)
    → next_event (DiskEvent.renamed a b ∷ DiskEvent.modified b ∷ events)
      ≡ next_event (DiskEvent.renamed a b ∷ events)
unfolding next_event reduce react from_disk_event
next_event-renamed-modified a b [] = ground arith
next_event-renamed-modified a b (e ∷ events) = ground arith

cancel_first :
    (a b : FilePath) (kept later : List DiskEvent)
    → reduce (wrap a (DiskEvent.created a)) (DiskEvent.deleted a ∷ DiskEvent.deleted b ∷ later) kept
      ≡ (some (wrap b (DiskEvent.deleted b)), kept ++ later)
unfolding reduce react from_disk_event
cancel_first a b kept later = ground (arith, reduce-deleted b b later kept)

cancel_last :
    (a : FilePath) (kept : List DiskEvent)
    → reduce (wrap a (DiskEvent.created a)) (DiskEvent.deleted a ∷ []) kept ≡ (none, kept)
unfolding reduce react
cancel_last a kept = ground arith

module _ (a b : FilePath) (pending later : List DiskEvent)
    (unrelated : Unrelated (DiskEvent.created a) pending) where
  -- When the file that the first event created is deleted, events of other files that came in
  -- between are overtaken by what comes after the deletion.
  pub next_event-overtakes :
      next_event
        (DiskEvent.created a ∷ (pending ++ (DiskEvent.deleted a ∷ DiskEvent.deleted b ∷ later)))
      ≡ (some (wrap b (DiskEvent.deleted b)), pending ++ later)
  unfolding next_event from_disk_event
  next_event-overtakes =
      reduce-append (DiskEvent.deleted a) (DiskEvent.deleted b ∷ later) _ pending [] _ _
        (reduce-Unrelated _ pending [] unrelated)
      ∙ cancel_first a b pending later

  -- Where the first event is the creation of a file, the last one its deletion and those between are about
  -- other files, the reducer gives no event, though these are pending.
  pub next_event-stuck :
      next_event (DiskEvent.created a ∷ (pending ++ (DiskEvent.deleted a ∷ []))) ≡ (none, pending)
  unfolding next_event from_disk_event
  next_event-stuck =
      reduce-append (DiskEvent.deleted a) [] _ pending [] _ _
        (reduce-Unrelated _ pending [] unrelated)
      ∙ cancel_last a pending
