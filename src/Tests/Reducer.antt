-- ===== src/Tests/Reducer.antt =====
-- The reducer of local events.
use trsync.Base.{length, ◌≤◌, arith, ◌≡◌, refl, some, List, [], ◌∷◌, ◌++◌, list_eq, string_eq, err}
use trsync.Event.{DiskEvent, wrap, from_disk_event}
use trsync.Local.Reducer.{react, next_event, recv, channel_closed}
use trsync.Local.Reducer.Order.{Unrelated}
use trsync.Local.Reducer.Merge.{follow, last_source, next_event-follow, next_event-follow-deleted}
use trsync.Local.Reducer.Stream.{stream, EachUnrelated, received, received-stream}
use trsync.Local.Reducer.Receive.{recv-stuck}
use trsync.Tests.Data.{path_a, path_b}

abbrev queue : List DiskEvent
queue = DiskEvent.renamed path_a path_b ∷ DiskEvent.modified path_b ∷ []

run : follow path_a queue ≡ some path_b
unfolding follow list_eq string_eq
run = refl

next_event-follow_example :
    (next_event (DiskEvent.created path_a ∷ queue)
      ≡ (some (wrap path_a (DiskEvent.created path_b)), []))
    × (next_event (DiskEvent.modified path_a ∷ queue)
        ≡ (some (wrap path_a (DiskEvent.modified path_b)), []))
    × (next_event (DiskEvent.renamed path_b path_a ∷ queue)
        ≡ (some (wrap path_b (DiskEvent.renamed path_a path_b)), []))
unfolding last_source
next_event-follow_example = next_event-follow path_b path_a path_b queue run

next_event-follow-deleted_example :
    (next_event (DiskEvent.created path_a ∷ (queue ++ (DiskEvent.deleted path_b ∷ queue)))
      ≡ next_event queue)
    × (next_event (DiskEvent.modified path_a ∷ (queue ++ (DiskEvent.deleted path_b ∷ queue)))
        ≡ (some (wrap path_a (DiskEvent.deleted path_b)), queue))
    × (next_event (DiskEvent.renamed path_b path_a ∷ (queue ++ (DiskEvent.deleted path_b ∷ queue)))
        ≡ (some (wrap path_b (DiskEvent.deleted path_b)), queue))
next_event-follow-deleted_example = next_event-follow-deleted path_b path_a path_b queue run queue

unrelated : Unrelated (DiskEvent.created path_a) (DiskEvent.created path_b ∷ [])
unfolding react
unrelated = (refl, tt)

recv-stuck_example :
    recv 1 (DiskEvent.created path_a ∷ DiskEvent.created path_b ∷ DiskEvent.deleted path_a ∷ []) []
    ≡ some (err channel_closed, DiskEvent.created path_b ∷ [], [])
recv-stuck_example = recv-stuck path_a (DiskEvent.created path_b ∷ []) 0 unrelated

abbrev arriving : List (List DiskEvent)
arriving = [] ∷ (DiskEvent.created path_b ∷ []) ∷ []

each_unrelated : EachUnrelated ((DiskEvent.modified path_a ∷ []) ++ stream arriving)
unfolding react stream list_eq string_eq
each_unrelated = ((refl, tt), (tt, tt))

few : length ((DiskEvent.modified path_a ∷ []) ++ stream arriving) ≤ 5
unfolding stream
few = omega arith

received-stream_example :
    received 2 5 (DiskEvent.modified path_a ∷ []) arriving
    ≡ wrap path_a (DiskEvent.modified path_a) ∷ wrap path_b (DiskEvent.created path_b) ∷ []
unfolding stream from_disk_event
received-stream_example =
    received-stream 0 5 (DiskEvent.modified path_a ∷ []) arriving each_unrelated few
