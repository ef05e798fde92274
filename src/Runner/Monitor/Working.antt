-- ===== src/Runner/Monitor/Working.antt =====
-- core/src/activity.rs: when the icon says that something is being done.
use trsync.Base.{
  true, false, ◌||◌, Bool-cases, inl, inr, ◌↔◌, Option, none, some, List, [], ◌∷◌, ◌≡◌, refl, sym,
  ◌∙◌, ap, arith, ◌==◌, if◌then◌else◌,
}
use trsync.Base.HashMap.{lookup, insert, NodupKeys, lookup-insert, insert-NodupKeys}
use trsync.Core.Job.{JobIdentifier, job_eq}
use trsync.Runner.{Activity}
use trsync.Runner.Monitor.{
  is_job, is_startup_sync, ActivityState, set_activity, is_working, Message, activity, timeout,
  disconnected, run,
}

abbrev pub Active : Activity → Type 0
Active a = (is_job a || is_startup_sync a) ≡ true

working_job :
    (state : ActivityState)
    → is_working state ≡ true
    → NodupKeys state
    → (j : JobIdentifier) × (a : Activity) × (lookup j state ≡ some a) × Active a
unfolding is_working
working_job [] h u = absurd (ground arith)
working_job ((k, b) ∷ state) h (fresh, u) = elim (Bool-cases (is_job b || is_startup_sync b)) [
  | inl y ↦ (k, b, ground arith, y)
  | inr n ↦
      let (j, a, l, active) = working_job state (ground arith) u in (j, a, ground arith, active)
]

job-working :
    (state : ActivityState) (j : JobIdentifier) (a : Activity)
    → lookup j state ≡ some a
    → Active a
    → is_working state ≡ true
unfolding is_working
job-working [] j a l h = absurd (ground arith)
job-working ((k, b) ∷ state) j a l h = elim (job_eq.dec j k) [
  | yes p ↦ ground arith
  | no n ↦ ground (arith, job-working state j a)
]

-- The last activity that is reported of a job before the loop ends.
abbrev pub latest : JobIdentifier → List Message → Option Activity → Option Activity
latest j [] before = before
latest j (activity k a ∷ rest) before = latest j rest (if j == k then some a else before)
latest j (timeout true ∷ rest) before = before
latest j (timeout false ∷ rest) before = latest j rest before
latest j (disconnected ∷ rest) before = before

lookup-run :
    (messages : List Message) (state : ActivityState) (j : JobIdentifier)
    → lookup j (run messages state).1 ≡ latest j messages (lookup j state)
unfolding run set_activity
lookup-run [] state j = refl
lookup-run (activity k a ∷ rest) state j =
    lookup-run rest (insert k a state) j ∙ ap (latest j rest) (lookup-insert j k a state)
lookup-run (timeout true ∷ rest) state j = refl
lookup-run (timeout false ∷ rest) state j = lookup-run rest state j
lookup-run (disconnected ∷ rest) state j = refl

run-NodupKeys :
    (messages : List Message) (state : ActivityState)
    → NodupKeys state
    → NodupKeys (run messages state).1
unfolding run set_activity
run-NodupKeys [] state u = u
run-NodupKeys (activity k a ∷ rest) state u =
    run-NodupKeys rest (insert k a state) (insert-NodupKeys k a state u)
run-NodupKeys (timeout true ∷ rest) state u = u
run-NodupKeys (timeout false ∷ rest) state u = run-NodupKeys rest state u
run-NodupKeys (disconnected ∷ rest) state u = u

-- After any messages, the state says that something is being done exactly where the last activity of some
-- job is a startup synchronization or the work on an event.
pub run-is_working :
    (messages : List Message)
    → (is_working (run messages []).1 ≡ true)
      ↔ ((j : JobIdentifier) × (a : Activity) × (latest j messages none ≡ some a) × Active a)
run-is_working messages =
    let state = (run messages []).1 in
    (
      λ h.
          let (j, a, l, active) = working_job state h (run-NodupKeys messages [] tt) in
          (j, a, sym (lookup-run messages [] j) ∙ l, active),
      λ (j, a, l, active). job-working state j a (lookup-run messages [] j ∙ l) active,
    )
