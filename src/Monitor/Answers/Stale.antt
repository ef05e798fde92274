-- ===== src/Monitor/Answers/Stale.antt =====
-- core/src/sync.rs with monitor/src/app.rs: an answer to changes whose request for the window has failed.
use trsync.Base.{Bool, true, ◌≡◌, refl, ap, ◌∙◌, none, some, [], ◌∷◌, arith}
use trsync.Base.HashMap.{lookup, lookup-insert}
use trsync.Core.Job.{JobIdentifier, job_eq}
use trsync.Monitor.{Changes, SyncChannels, SyncExchanger, ErrorExchanger, update}
use trsync.Monitor.Answers.{
  System, noted, after_frame, set_changes, receive_decision, Reach, here, next, asks, fails, draws,
  last_for,
}
use trsync.Monitor.Answers.Shown.{lookup-set_changes}
use trsync.Monitor.Answers.Possible.{answers, update-answers, waits}

module _ (j : JobIdentifier) where
  pub receive_decision-stale :
      (start : System) (c c' : Changes) (b : Bool) (e : ErrorExchanger)
      → lookup j start.syncs ≡ some (record { changes = none; answers = [] })
      → start.asked ≡ none
      → (s : System) × (syncs : SyncExchanger) × Reach j start s
        × (s.asked ≡ some c')
        × (receive_decision j s.syncs ≡ (some b, syncs))
        × (last_for j s.given ≡ some (c, b))
  receive_decision-stale start c c' b e fresh idle =
      let failed : System = record start {
        failed = true;
        syncs = set_changes j (some c) start.syncs;
      } in
      let left : SyncChannels = record { changes = some c; answers = [] } in
      let shown =
        lookup-set_changes j (some c) start.syncs (record { changes = none; answers = [] }) fresh in
      let (answer, given) = update-answers j b failed.app failed.syncs e left c shown refl in
      let answered : System = after_frame (update (answers j b) failed.app failed.syncs e) failed in
      let waiting : SyncChannels = record { changes = none; answers = b ∷ [] } in
      let there : lookup j answered.syncs ≡ some waiting =
        ap (lookup j) answer ∙ ground (arith, lookup-insert j j waiting failed.syncs) in
      let asking : System = record answered {
        asked = some c';
        syncs = set_changes j (some c') answered.syncs;
      } in
      let (syncs, received) =
        waits j asking.syncs (record waiting { changes = some c' }) b []
          (lookup-set_changes j (some c') answered.syncs waiting there) refl in
      (
        asking,
        syncs,
        next (next (next here (fails c idle refl)) (draws (answers j b) e refl))
            (asks c' idle refl),
        refl,
        received,
        ap (λ o. last_for j (noted o failed.given)) given ∙ ground arith,
      )
