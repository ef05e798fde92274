-- ===== src/Local/Reducer.antt =====
-- trsync/src/local/reducer.rs: `LocalReceiverReducer` merges the pending events of one file.
pub mod Order
pub mod Merge
pub mod Receive
pub mod Stream
use trsync.Base.{
  ℕ, zero, suc, ◌+◌, Option, none, some, List, [], ◌∷◌, ◌++◌, ◌==◌, list_eq, string_eq, Outcome, ok,
  err, length, if◌then◌else◌,
}
use trsync.Event.{DiskEvent, DiskEventWrap, wrap, from_disk_event}

-- What the loop does with the tested event: keep it for later, drop it, let the current event
-- become another one, or drop both and take the next event as the current one.
pub data Reaction : Type 0 where
  keep drop cancel : Reaction
  become : DiskEvent → Reaction

-- The `match` of the inner loop, the current event first.
unfoldable pub react : DiskEvent → DiskEvent → Reaction
react (DiskEvent.created a) (DiskEvent.deleted b) = if a == b then cancel else keep
react (DiskEvent.created a) (DiskEvent.created b) = keep
react (DiskEvent.created a) (DiskEvent.modified b) = if a == b then drop else keep
react (DiskEvent.created a) (DiskEvent.renamed b b') =
    if b == a then become (DiskEvent.created b') else keep
react (DiskEvent.deleted a) e = keep
react (DiskEvent.modified a) (DiskEvent.deleted b) =
    if a == b then become (DiskEvent.deleted b) else keep
react (DiskEvent.modified a) (DiskEvent.created b) = keep
react (DiskEvent.modified a) (DiskEvent.modified b) = if a == b then drop else keep
react (DiskEvent.modified a) (DiskEvent.renamed b b') =
    if b == a then become (DiskEvent.modified b') else keep
react (DiskEvent.renamed a a') (DiskEvent.deleted b) =
    if a' == b then become (DiskEvent.deleted a') else keep
react (DiskEvent.renamed a a') (DiskEvent.created b) = keep
react (DiskEvent.renamed a a') (DiskEvent.modified b) = if a' == b then drop else keep
react (DiskEvent.renamed a a') (DiskEvent.renamed b b') =
    if a' == b then become (DiskEvent.renamed b b') else keep

abbrev pub Reduced : Type 0
Reduced = Option DiskEventWrap × List DiskEvent

-- Both loops: `break 'events_test` leads back to the inner loop at the next event, with the new
-- current event, unless there is none.
unfoldable pub reduce : DiskEventWrap → List DiskEvent → List DiskEvent → Reduced
reduce current [] kept = (some current, kept)
reduce current (test ∷ []) kept = elim (react current.event test) [
  | keep ↦ (some current, kept ++ (test ∷ []))
  | drop ↦ (some current, kept)
  | become e ↦ (some (wrap current.stored_path e), kept)
  | cancel ↦ (none, kept)
]
reduce current (test ∷ next ∷ rest) kept = elim (react current.event test) [
  | keep ↦ reduce current (next ∷ rest) (kept ++ (test ∷ []))
  | drop ↦ reduce current (next ∷ rest) kept
  | become e ↦ reduce (wrap current.stored_path e) (next ∷ rest) kept
  | cancel ↦ reduce (from_disk_event next) rest kept
]

-- `next_event`: the event to proceed, and what `self.events` holds afterwards.
unfoldable pub next_event : List DiskEvent → Reduced
unfolding reduce
next_event [] = (none, [])
next_event (e ∷ events) = reduce (from_disk_event e) events []

-- The channel, as the batches in which its events arrive. A blocking receive takes one event.
unfoldable pub block : List (List DiskEvent) → Option (DiskEvent × List (List DiskEvent))
block [] = none
block ([] ∷ batches) = block batches
block ((e ∷ batch) ∷ batches) = some (e, batch ∷ batches)

-- `try_iter` takes what has arrived.
abbrev try_iter : List (List DiskEvent) → List DiskEvent × List (List DiskEvent)
try_iter [] = ([], [])
try_iter (batch ∷ batches) = (batch, batches)

pub data Error : Type 0 where
  channel_closed : Error

abbrev pub Received : Type 0
Received = Outcome Error DiskEventWrap × List DiskEvent × List (List DiskEvent)

-- `recv`: `none` only when the fuel is spent; each round but the last one takes an event from the
-- channel.
unfoldable pub recv : ℕ → List DiskEvent → List (List DiskEvent) → Option Received
unfolding block next_event
recv zero events batches = none
recv (suc fuel) events batches =
    let (batch, later) = try_iter batches in
    let (found, rest) = next_event (events ++ batch) in
    elim found [
      | some event ↦ some (ok event, rest, later)
      | none ↦ elim (block later) [
        | none ↦ some (err channel_closed, rest, [])
        | some (e, later') ↦ recv fuel (rest ++ (e ∷ [])) later'
      ]
    ]
