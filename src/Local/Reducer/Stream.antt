-- ===== src/Local/Reducer/Stream.antt =====
-- `recv` over a stream of events of different files.
use trsync.Base.{
  ℕ, zero, suc, ◌≤◌, ◌≡◌, ◌∙◌, refl, sym, ap, none, some, List, [], ◌∷◌, ◌++◌, map, ok, err, arith,
  length,
}
use mathlib.Core.List.{append_assoc, append-nil}
use mathlib.Core.Path.{subst}
use trsync.Event.{DiskEvent, DiskEventWrap, from_disk_event}
use trsync.Local.Reducer.{next_event, block, recv, channel_closed}
use trsync.Local.Reducer.Order.{Unrelated, reduce-Unrelated}

-- All events that the channel gives.
unfoldable pub stream : List (List DiskEvent) → List DiskEvent
stream [] = []
stream (batch ∷ batches) = batch ++ stream batches

Unrelated-first : (e : DiskEvent) (xs ys : List DiskEvent) → Unrelated e (xs ++ ys) → Unrelated e xs
Unrelated-first e [] ys h = tt
Unrelated-first e (x ∷ xs) ys (h, hs) = (h, Unrelated-first e xs ys hs)

next_event-Unrelated :
    (e : DiskEvent) (es : List DiskEvent)
    → Unrelated e es
    → next_event (e ∷ es) ≡ (some (from_disk_event e), es)
unfolding next_event from_disk_event
next_event-Unrelated (DiskEvent.created p) es h =
    reduce-Unrelated (from_disk_event (DiskEvent.created p)) es [] h
next_event-Unrelated (DiskEvent.deleted p) es h =
    reduce-Unrelated (from_disk_event (DiskEvent.deleted p)) es [] h
next_event-Unrelated (DiskEvent.modified p) es h =
    reduce-Unrelated (from_disk_event (DiskEvent.modified p)) es [] h
next_event-Unrelated (DiskEvent.renamed p q) es h =
    reduce-Unrelated (from_disk_event (DiskEvent.renamed p q)) es [] h

abbrev Next : ℕ → List DiskEvent → List (List DiskEvent) → DiskEvent → List DiskEvent → Type 0
Next fuel events batches e rest =
    (events' : List DiskEvent) × (batches' : List (List DiskEvent)) × (recv fuel events batches
      ≡ some (ok (from_disk_event e), events', batches'))
    × (events' ++ stream batches' ≡ rest)

-- One event is pending at least.
recv-pending :
    (fuel : ℕ) (e : DiskEvent) (events : List DiskEvent) (batches : List (List DiskEvent))
    → Unrelated e (events ++ stream batches)
    → Next (suc fuel) (e ∷ events) batches e (events ++ stream batches)
unfolding recv stream
recv-pending fuel e events [] h = (
  events ++ [],
  [],
  ground (arith, next_event-Unrelated e (events ++ []) h),
  append-nil (events ++ []),
)
recv-pending fuel e events (batch ∷ batches) h = (
  events ++ batch,
  batches,
  ground (
    arith,
    next_event-Unrelated e (events ++ batch) (
        Unrelated-first e (events ++ batch) (stream batches)
          (subst (Unrelated e) (sym (append_assoc events batch (stream batches))) h)),
  ),
  append_assoc events batch (stream batches),
)

block-first :
    (batches : List (List DiskEvent)) (e : DiskEvent) (rest : List DiskEvent)
    → stream batches ≡ e ∷ rest
    → (later : List (List DiskEvent)) × (block batches ≡ some (e, later)) × (stream later ≡ rest)
unfolding block stream
block-first [] e rest p = absurd (ground arith)
block-first ([] ∷ batches) e rest p = block-first batches e rest p
block-first ((x ∷ batch) ∷ batches) e rest p = (batch ∷ batches, ground arith, ground arith)

block-none : (batches : List (List DiskEvent)) → stream batches ≡ [] → block batches ≡ none
unfolding block stream
block-none [] p = refl
block-none ([] ∷ batches) p = block-none batches p
block-none ((x ∷ batch) ∷ batches) p = absurd (ground arith)

-- No event says anything of the file of an earlier one.
abbrev pub EachUnrelated : List DiskEvent → Type 0
EachUnrelated [] = Unit
EachUnrelated (e ∷ events) = Unrelated e events × EachUnrelated events

abbrev GivesFirst : ℕ → List DiskEvent → List (List DiskEvent) → List DiskEvent → Type 0
GivesFirst fuel events batches [] = recv fuel events batches ≡ some (err channel_closed, [], [])
GivesFirst fuel events batches (e ∷ rest) = Next fuel events batches e rest

recv-blocked :
    (fuel : ℕ) (batches : List (List DiskEvent)) (all : List DiskEvent)
    → stream batches ≡ all
    → EachUnrelated all
    → GivesFirst (suc (suc fuel)) [] ([] ∷ batches) all
unfolding recv next_event
recv-blocked fuel batches [] p h = ground (arith, block-none batches p)
recv-blocked fuel batches (e ∷ rest) p h =
    let (later, found, same) = block-first batches e rest p in
    let (events', batches', gives, left) =
      recv-pending fuel e [] later (subst (Unrelated e) (sym same) h.0) in
    (events', batches', ground (arith, found, gives), left ∙ same)

recv-first :
    (fuel : ℕ) (events : List DiskEvent) (batches : List (List DiskEvent))
    → EachUnrelated (events ++ stream batches)
    → GivesFirst (suc (suc fuel)) events batches (events ++ stream batches)
unfolding recv stream next_event
recv-first fuel (e ∷ events) batches h = recv-pending (suc fuel) e events batches h.0
recv-first fuel [] [] h = refl
recv-first fuel [] ([] ∷ batches) h = recv-blocked fuel batches (stream batches) refl h
recv-first fuel [] ((x ∷ batch) ∷ batches) h = (
  batch,
  batches,
  ground (arith, next_event-Unrelated x batch (Unrelated-first x batch (stream batches) h.0)),
  refl,
)

-- What as many calls of `recv` give, up to the first error.
unfoldable pub received : ℕ → ℕ → List DiskEvent → List (List DiskEvent) → List DiskEventWrap
unfolding recv
received fuel zero events batches = []
received fuel (suc calls) events batches = elim (recv fuel events batches) [
  | none ↦ []
  | some (err e, events', batches') ↦ []
  | some (ok event, events', batches') ↦ event ∷ received fuel calls events' batches'
]

received-all :
    (fuel calls : ℕ) (all events : List DiskEvent) (batches : List (List DiskEvent))
    → events ++ stream batches ≡ all
    → EachUnrelated all
    → length all ≤ calls
    → received (suc (suc fuel)) calls events batches ≡ map from_disk_event all
unfolding received
received-all fuel zero [] events batches p h n = refl
received-all fuel zero (e ∷ rest) events batches p h n = absurd (omega arith)
received-all fuel (suc calls) [] events batches p h n =
    let first : GivesFirst (suc (suc fuel)) events batches [] =
      subst (λ l. GivesFirst (suc (suc fuel)) events batches l) p
        (recv-first fuel events batches (subst EachUnrelated (sym p) h)) in
    rw (received, first) refl
received-all fuel (suc calls) (e ∷ rest) events batches p h n =
    let (events', batches', gives, left) : Next (suc (suc fuel)) events batches e rest =
      subst (λ l. GivesFirst (suc (suc fuel)) events batches l) p
        (recv-first fuel events batches (subst EachUnrelated (sym p) h)) in
    rw (received, gives)
      (ap (λ es. from_disk_event e ∷ es)
        (received-all fuel calls rest events' batches' left h.1 (omega arith)))

pub received-stream :
    (fuel calls : ℕ) (events : List DiskEvent) (batches : List (List DiskEvent))
    → EachUnrelated (events ++ stream batches)
    → length (events ++ stream batches) ≤ calls
    → received (suc (suc fuel)) calls events batches
      ≡ map from_disk_event (events ++ stream batches)
received-stream fuel calls events batches h n =
    received-all fuel calls (events ++ stream batches) events batches refl h n
