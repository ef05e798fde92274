-- ===== src/Monitor/Answers/Effect.antt =====
-- monitor/src/app.rs: what a frame of the window does to the channels of a job.
use trsync.Base.{
  Bool, ◌≡◌, ◌⊎◌, inl, inr, refl, sym, ap, ◌∙◌, Option, none, some, Option-cases, List, [], ◌∷◌,
  ◌++◌, arith,
}
use trsync.Base.HashMap.{lookup, lookup-insert}
use trsync.Core.Job.{JobIdentifier, job_eq}
use trsync.Monitor.{
  Changes, SyncChannels, SyncExchanger, ErrorExchanger, Panel, root, startup_synchronizations,
  errors, App, Frame, Answer, answer_of, answered, synchronizations_display, body, update,
}
use trsync.Monitor.Answers.{noted, last_for}

module _ (j : JobIdentifier) where
  -- What a frame does to the channels of the job: nothing, or an answer to the changes that are shown.
  abbrev pub Unchanged : SyncExchanger → SyncExchanger → Option Answer → Type 0
  Unchanged before after given =
      (lookup j after ≡ lookup j before)
      × ((all : List Answer) → last_for j (noted given all) ≡ last_for j all)

  abbrev pub Answers : SyncExchanger → SyncExchanger → Option Answer → Type 0
  Answers before after given =
      (channels : SyncChannels) × (c : Changes) × (b : Bool) × (lookup j before ≡ some channels)
      × (channels.changes ≡ some c)
      × (lookup j after ≡ some (record { changes = none; answers = channels.answers ++ (b ∷ []) }))
      × (given ≡ some (j, c, b))

  abbrev pub Effect : SyncExchanger → SyncExchanger → Option Answer → Type 0
  Effect before after given = Unchanged before after given ⊎ Answers before after given

  answered-Effect :
      (a : App) (syncs : SyncExchanger) (space : JobIdentifier) (found : SyncChannels)
      (c : Option Changes) (b : Option Bool)
      → lookup space syncs ≡ some found
      → found.changes ≡ c
      → let (a', syncs', given) = answered a syncs space found c b in Effect syncs syncs' given
  answered-Effect a syncs space found none b l h = inl (refl, λ all. refl)
  answered-Effect a syncs space found (some c) none l h = inl (refl, λ all. refl)
  answered-Effect a syncs space found (some c) (some b) l h = elim (job_eq.dec space j) [
    | yes p ↦ inr (
      found,
      c,
      b,
      sym (ap (λ k. lookup k syncs) p) ∙ l,
      h,
      ground (
        arith,
        p,
        lookup-insert j space (record { changes = none; answers = found.answers ++ (b ∷ []) })
            syncs,
      ),
      ap (λ k. some (k, c, b)) p,
    )
    | no n ↦ inl (
      ground (
        arith,
        lookup-insert j space (record { changes = none; answers = found.answers ++ (b ∷ []) })
            syncs,
      ),
      λ all. ground arith,
    )
  ]

  display-Effect :
      (f : Frame) (a : App) (syncs : SyncExchanger)
      → let (a', syncs', given) = synchronizations_display f a syncs in Effect syncs syncs' given
  unfolding synchronizations_display
  display-Effect f a syncs = elim (Option-cases a.current_sync_space) [
    | inl n ↦ rw (synchronizations_display, n) (inl (refl, λ all. refl))
    | inr (space, y) ↦ elim (Option-cases (lookup space syncs)) [
      | inl n ↦ rw (synchronizations_display, y, n) (inl (refl, λ all. refl))
      | inr (found, l) ↦
          rw (synchronizations_display, y, l)
            (answered-Effect a syncs space found found.changes (answer_of f) l refl)
    ]
  ]

  body-Effect :
      (f : Frame) (panel : Panel) (a : App) (syncs : SyncExchanger) (e : ErrorExchanger)
      → let r = body f panel a syncs e in Effect syncs r.syncs r.given
  unfolding body
  body-Effect f root a syncs e = inl (refl, λ all. refl)
  body-Effect f errors a syncs e = inl (refl, λ all. refl)
  body-Effect f startup_synchronizations a syncs e = display-Effect f _ syncs

  pub update-Effect :
      (f : Frame) (a : App) (syncs : SyncExchanger) (e : ErrorExchanger)
      → let r = update f a syncs e in Effect syncs r.syncs r.given
  unfolding update
  update-Effect f a syncs e = body-Effect f _ _ syncs _
