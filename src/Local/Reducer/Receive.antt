-- ===== src/Local/Reducer/Receive.antt =====
-- `recv` over a channel that gets its events in batches.
use mathlib.Core.List.{append-nil}
use trsync.Base.{ℕ, suc, ◌≡◌, some, List, [], ◌∷◌, ◌++◌, arith, err}
use trsync.Core.Types.{FilePath}
use trsync.Event.{DiskEvent}
use trsync.Local.Reducer.{recv, channel_closed}
use trsync.Local.Reducer.Order.{Unrelated}
use trsync.Local.Reducer.Merge.{next_event-stuck}

-- Where the queue is the creation of a file, events of other files and the deletion of the first one,
-- and the channel is closed, `recv` gives the error, and the pending events are given to nobody.
pub recv-stuck :
    (a : FilePath) (pending : List DiskEvent) (fuel : ℕ)
    → Unrelated (DiskEvent.created a) pending
    → recv (suc fuel) (DiskEvent.created a ∷ (pending ++ (DiskEvent.deleted a ∷ []))) []
      ≡ some (err channel_closed, pending, [])
unfolding recv
recv-stuck a pending fuel unrelated = ground (
  arith,
  append-nil (DiskEvent.created a ∷ (pending ++ (DiskEvent.deleted a ∷ []))),
  next_event-stuck a a pending [] unrelated,
)
