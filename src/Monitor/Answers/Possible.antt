-- ===== src/Monitor/Answers/Possible.antt =====
-- monitor/src/app.rs with core/src/sync.rs: a job that waits for the user can be answered.
use trsync.Base.{
  Bool, true, false, List, Option, sym, ◌≡◌, ◌⊎◌, inl, inr, refl, ap, ◌∙◌, none, some, [], ◌∷◌,
  ◌++◌, arith, contains, if◌then◌else◌,
}
use trsync.Base.HashMap.{lookup, insert, lookup-insert}
use trsync.Core.Job.{JobIdentifier, job_eq}
use trsync.Monitor.{
  Changes, SyncChannels, SyncExchanger, ErrorExchanger, App, startup_synchronizations, Frame,
  waiting_spaces, synchronizations_display, body, update,
}
use trsync.Monitor.Answers.{
  System, after_frame, receive_decision, Step, asks, fails, draws, opens, others, receives, Reach,
  here, next,
}
use trsync.Monitor.Answers.Effect.{update-Effect}
use trsync.Monitor.Answers.Shown.{lookup-set_changes, receive_decision-taken}

List-cases : {A : Type 0} (xs : List A) → (xs ≡ []) ⊎ ((x : A) × (rest : List A) × (xs ≡ x ∷ rest))
List-cases [] = inl refl
List-cases (x ∷ rest) = inr (x, rest, refl)

module _ (j : JobIdentifier) where
  -- The user opens the panel of the synchronizations, chooses the job and clicks.
  abbrev pub answers : Bool → Frame
  answers b = record {
    panel = some startup_synchronizations;
    sync_space = some j;
    error_space = none;
    refuse = if b then false else true;
    accept = b;
    ignore_and_restart = false;
    restart = false;
  }

  listed :
      (syncs : SyncExchanger) (channels : SyncChannels) (c : Changes)
      → lookup j syncs ≡ some channels
      → channels.changes ≡ some c
      → contains (waiting_spaces syncs) j ≡ true
  unfolding waiting_spaces
  listed [] channels c l h = ground arith
  listed ((k, x) ∷ syncs) channels c l h = elim (job_eq.dec j k) [
    | yes p ↦ ground arith
    | no n ↦
        (let rest : lookup j syncs ≡ some channels = ground arith in
          ground (arith, listed syncs channels c rest h))
  ]

  abbrev pub after : Bool → SyncChannels → SyncExchanger → SyncExchanger
  after b channels syncs =
      insert j (record { changes = none; answers = channels.answers ++ (b ∷ []) }) syncs

  display-answers :
      (b : Bool) (a : App) (syncs : SyncExchanger) (channels : SyncChannels) (c : Changes)
      → a.current_sync_space ≡ some j
      → lookup j syncs ≡ some channels
      → channels.changes ≡ some c
      → ((synchronizations_display (answers b) a syncs).1 ≡ after b channels syncs)
        × ((synchronizations_display (answers b) a syncs).2 ≡ some (j, c, b))
  unfolding synchronizations_display
  display-answers true a syncs channels c picked l h =
      rw (synchronizations_display, picked, l, h) (refl, refl)
  display-answers false a syncs channels c picked l h =
      rw (synchronizations_display, picked, l, h) (refl, refl)

  pub update-answers :
      (b : Bool) (a : App) (syncs : SyncExchanger) (e : ErrorExchanger) (channels : SyncChannels)
      (c : Changes)
      → lookup j syncs ≡ some channels
      → channels.changes ≡ some c
      → ((update (answers b) a syncs e).syncs ≡ after b channels syncs)
        × ((update (answers b) a syncs e).given ≡ some (j, c, b))
  unfolding update body
  update-answers b a syncs e channels c l h =
      let shown =
        display-answers b _ syncs channels c (rw (listed syncs channels c l h) refl) l h in
      (shown.0, shown.1)

  pub waits :
      (syncs : SyncExchanger) (channels : SyncChannels) (b : Bool) (rest : List Bool)
      → lookup j syncs ≡ some channels
      → channels.answers ≡ b ∷ rest
      → (left : SyncExchanger) × (receive_decision j syncs ≡ (some b, left))
  waits syncs channels b rest l h = (_, receive_decision-taken j syncs channels (b ∷ rest) l h)

  -- While the job waits, its changes are shown or an answer waits.
  abbrev Open : Option Changes → SyncChannels → Type 0
  Open none channels = Unit
  Open (some c) channels =
      (channels.changes ≡ some c)
      ⊎ ((b : Bool) × (rest : List Bool) × (channels.answers ≡ b ∷ rest))

  abbrev Inv : System → Type 0
  Inv s = (channels : SyncChannels) × (lookup j s.syncs ≡ some channels) × Open s.asked channels

  Open-at :
      (o o' : Option Changes) (channels : SyncChannels)
      → o ≡ o'
      → Open o channels
      → Open o' channels
  Open-at o o' channels e p = rw (← e) p

  Open-answer :
      (o : Option Changes) (channels : SyncChannels) (b : Bool)
      → Open o channels
      → Open o (record { changes = none; answers = channels.answers ++ (b ∷ []) })
  Open-answer none channels b p = tt
  Open-answer (some c) channels b p = elim (List-cases channels.answers) [
    | inl h ↦ inr (b, [], ap (λ xs. xs ++ (b ∷ [])) h)
    | inr (x, rest, h) ↦ inr (x, rest ++ (b ∷ []), ap (λ xs. xs ++ (b ∷ [])) h)
  ]

  draws-Inv :
      (f : Frame) (e : ErrorExchanger) (s : System)
      → Inv s
      → Inv (after_frame (update f s.app s.syncs e) s)
  draws-Inv f e s (channels, l, p) = elim (update-Effect j f s.app s.syncs e) [
    | inl (same, quiet) ↦ (channels, same ∙ l, p)
    | inr (found, c, b, l', h, after, answer) ↦
        let same : channels ≡ found = cc in
        let q : Open s.asked found = rw (← same) p in (_, after, Open-answer s.asked found b q)
  ]

  receives-Inv :
      (b : Bool) (syncs : SyncExchanger) (s : System)
      → receive_decision j s.syncs ≡ (some b, syncs)
      → Inv s
      → Inv (record s { asked = none; syncs = syncs })
  receives-Inv b syncs s r (channels, l, p) = elim (List-cases channels.answers) [
    | inl h ↦ absurd (ground (arith, receive_decision-taken j s.syncs channels [] l h))
    | inr (x, rest, h) ↦
        let t = sym r ∙ receive_decision-taken j s.syncs channels (x ∷ rest) l h in
        (
          record channels { answers = rest },
          ap (λ y. lookup j y.1) t
              ∙ ground (arith, lookup-insert j j (record channels { answers = rest }) s.syncs),
          tt,
        )
  ]

  Step-Inv : {s t : System} → Step j s t → Inv s → Inv t
  Step-Inv {s} (asks c n e) (channels, l, p) =
      rw e (_, lookup-set_changes j (some c) s.syncs channels l, inl refl)
  Step-Inv {s} (fails c n e) (channels, l, p) = rw e (
    record channels { changes = some c },
    lookup-set_changes j (some c) s.syncs channels l,
    Open-at none s.asked (record channels { changes = some c }) (sym n) tt,
  )
  Step-Inv {s} (draws f errs e) h = rw e (draws-Inv f errs s h)
  Step-Inv (opens panel e) (channels, l, p) = rw e (channels, l, p)
  Step-Inv (others syncs same e) (channels, l, p) = rw e (channels, same ∙ l, p)
  Step-Inv {s} (receives c b syncs waiting r e) h = rw e (receives-Inv b syncs s r h)

  Reach-Inv : {s t : System} → Inv s → Reach j s t → Inv t
  Reach-Inv h here = h
  Reach-Inv h (next r st) = Step-Inv st (Reach-Inv h r)

  given_now :
      (s : System) (channels : SyncChannels) (c : Changes) (b : Bool) (e : ErrorExchanger)
      → lookup j s.syncs ≡ some channels
      → channels.changes ≡ some c
      → channels.answers ≡ []
      → (left : SyncExchanger) × (receive_decision j (update (answers b) s.app s.syncs e).syncs
          ≡ (some b, left))
  given_now s channels c b e l shown none_yet =
      waits (update (answers b) s.app s.syncs e).syncs
        (record { changes = none; answers = channels.answers ++ (b ∷ []) }) b []
        (ap (lookup j) (update-answers b s.app s.syncs e channels c l shown).0
          ∙ ground (
            arith,
            lookup-insert j j (record { changes = none; answers = channels.answers ++ (b ∷ []) })
                s.syncs,
          ))
        (ap (λ xs. xs ++ (b ∷ [])) none_yet)

  -- A job that waits for a decision can be answered at any time: unless an answer waits for it already, a frame in
  -- which the user chooses the job and clicks gives it that answer.
  pub answer_possible :
      (start s : System) (c : Changes) (b : Bool) (e : ErrorExchanger)
      → lookup j start.syncs ≡ some (record { changes = none; answers = [] })
      → start.asked ≡ none
      → Reach j start s
      → s.asked ≡ some c
      → (before : Bool) × (syncs : SyncExchanger) × ((receive_decision j s.syncs
            ≡ (some before, syncs))
          ⊎ ((receive_decision j (update (answers b) s.app s.syncs e).syncs ≡ (some before, syncs))
              × (before ≡ b)))
  answer_possible start s c b e fresh idle reached waiting =
      let (channels, l, p) = Reach-Inv {s = start} (_, fresh, rw idle tt) reached in
      elim (List-cases channels.answers) [
        | inr (given, rest, h) ↦
            let (left, r) = waits s.syncs channels given rest l h in (given, left, inl r)
        | inl none_yet ↦ elim (Open-at s.asked (some c) channels waiting p) [
          | inr (given, rest, h) ↦ absurd (ground arith)
          | inl shown ↦
              let (left, r) = given_now s channels c b e l shown none_yet in
              (b, left, inr (r, refl))
        ]
      ]
