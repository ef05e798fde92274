-- ===== src/Monitor/Answers/Shown.antt =====
-- core/src/sync.rs with monitor/src/app.rs: a decision that a job receives, and the changes that were shown.
use trsync.Base.{
  true, false, Bool, ◌≡◌, ◌⊎◌, inl, inr, refl, sym, ap, ◌∙◌, Option, none, some, List, [], ◌∷◌,
  ◌++◌, arith,
}
use trsync.Base.HashMap.{lookup, insert, lookup-insert}
use trsync.Core.Job.{JobIdentifier, job_eq}
use trsync.Monitor.{Changes, SyncChannels, SyncExchanger, ErrorExchanger, Frame, Answer, update}
use trsync.Monitor.Answers.{
  System, noted, after_frame, taken, set_changes, receive_decision, Step, asks, fails, draws, opens,
  others, receives, Reach, here, next, last_for,
}
use trsync.Monitor.Answers.Effect.{update-Effect}

module _ (j : JobIdentifier) where
  -- While the job waits, its changes are shown and nothing is answered, or one answer waits that was given to
  -- these changes; otherwise there are neither changes nor answers.
  abbrev pub Phase : Option Changes → SyncChannels → List Answer → Type 0
  Phase none channels given = (channels.changes ≡ none) × (channels.answers ≡ [])
  Phase (some c) channels given =
      ((channels.changes ≡ some c) × (channels.answers ≡ []))
      ⊎ ((b : Bool) × (channels.changes ≡ none)
          × (channels.answers ≡ b ∷ [])
          × (last_for j given ≡ some (c, b)))

  abbrev Inv : System → Type 0
  Inv s =
      (channels : SyncChannels) × (lookup j s.syncs ≡ some channels)
      × Phase s.asked channels s.given

  Phase-same :
      (o : Option Changes) (channels : SyncChannels) (given more : List Answer)
      → last_for j more ≡ last_for j given
      → Phase o channels given
      → Phase o channels more
  Phase-same none channels given more e p = p
  Phase-same (some c) channels given more e (inl p) = inl p
  Phase-same (some c) channels given more e (inr (b, n, a, l)) = inr (b, n, a, e ∙ l)

  pub Phase-at :
      (o o' : Option Changes) (channels : SyncChannels) (given : List Answer)
      → o ≡ o'
      → Phase o channels given
      → Phase o' channels given
  Phase-at o o' channels given e p = rw (← e) p

  Phase-answer :
      (o : Option Changes) (channels : SyncChannels) (given : List Answer) (c : Changes) (b : Bool)
      → channels.changes ≡ some c
      → Phase o channels given
      → Phase o
          (record { changes = none; answers = channels.answers ++ (b ∷ []) })
          ((j, c, b) ∷ given)
  Phase-answer none channels given c b h (n, a) = absurd (ground arith)
  Phase-answer (some d) channels given c b h (inr (b', n, a, l)) = absurd (ground arith)
  Phase-answer (some d) channels given c b h (inl (s, a)) =
      inr (b, refl, ground arith, ground arith)

  pub lookup-set_changes :
      (c : Option Changes) (syncs : SyncExchanger) (channels : SyncChannels)
      → lookup j syncs ≡ some channels
      → lookup j (set_changes j c syncs) ≡ some (record channels { changes = c })
  unfolding set_changes
  lookup-set_changes c syncs channels l =
      rw (l) (ground (arith, lookup-insert j j (record channels { changes = c }) syncs))

  pub receive_decision-taken :
      (syncs : SyncExchanger) (channels : SyncChannels) (answers : List Bool)
      → lookup j syncs ≡ some channels
      → channels.answers ≡ answers
      → receive_decision j syncs ≡ taken j channels answers syncs
  unfolding receive_decision
  receive_decision-taken syncs channels answers l a = rw (l, a) refl

  asks-Inv :
      (c : Changes) (s : System)
      → s.asked ≡ none
      → Inv s
      → Inv (record s { asked = some c; syncs = set_changes j (some c) s.syncs })
  asks-Inv c s n (channels, l, p) =
      let q : Phase none channels s.given = Phase-at s.asked none channels s.given n p in
      (
        record channels { changes = some c },
        lookup-set_changes (some c) s.syncs channels l,
        inl (refl, q.1),
      )

  draws-Inv :
      (f : Frame) (e : ErrorExchanger) (s : System)
      → Inv s
      → Inv (after_frame (update f s.app s.syncs e) s)
  draws-Inv f e s (channels, l, p) = elim (update-Effect j f s.app s.syncs e) [
    | inl (same, quiet) ↦
        (channels, same ∙ l, Phase-same s.asked channels s.given _ (quiet s.given) p)
    | inr (found, c, b, l', h, after, answer) ↦
        let same : channels ≡ found = cc in
        let q : Phase s.asked found s.given = rw (← same) p in
        (
          _,
          after,
          Phase-same s.asked _ ((j, c, b) ∷ s.given) _
              (ap (λ o. last_for j (noted o s.given)) answer)
              (Phase-answer s.asked found s.given c b h q),
        )
  ]

  Decided : Changes → Bool → SyncExchanger → SyncChannels → System → Type 0
  Decided c b syncs channels s =
      (last_for j s.given ≡ some (c, b))
      × (syncs ≡ insert j (record channels { answers = [] }) s.syncs)
      × (channels.changes ≡ none)

  received-Decided :
      (c : Changes) (b : Bool) (syncs : SyncExchanger) (s : System) (channels : SyncChannels)
      → lookup j s.syncs ≡ some channels
      → Phase (some c) channels s.given
      → receive_decision j s.syncs ≡ (some b, syncs)
      → Decided c b syncs channels s
  unfolding Decided
  received-Decided c b syncs s channels l (inl (shown, a)) r =
      absurd (ground (arith, receive_decision-taken s.syncs channels [] l a))
  received-Decided c b syncs s channels l (inr (b', n, a, last)) r =
      let t = sym r ∙ receive_decision-taken s.syncs channels (b' ∷ []) l a in
      let same : b ≡ b' = cc t in (last ∙ ap (λ x. some (c, x)) (sym same), ap (λ x. x.1) t, n)

  receives-Inv :
      (c : Changes) (b : Bool) (syncs : SyncExchanger) (s : System)
      → s.asked ≡ some c
      → receive_decision j s.syncs ≡ (some b, syncs)
      → Inv s
      → Inv (record s { asked = none; syncs = syncs })
  unfolding Decided
  receives-Inv c b syncs s waiting r (channels, l, p) =
      let q : Phase (some c) channels s.given =
        Phase-at s.asked (some c) channels s.given waiting p in
      let (last, e, n) = received-Decided c b syncs s channels l q r in
      (
        record channels { answers = [] },
        ap (lookup j) e
            ∙ ground (arith, lookup-insert j j (record channels { answers = [] }) s.syncs),
        (n, refl),
      )

  -- As long as no request for the window has failed.
  abbrev Sound : System → Type 0
  Sound s = (s.failed ≡ true) ⊎ Inv s

  Step-Sound : {s t : System} → Step j s t → Sound s → Sound t
  Step-Sound (asks c n e) (inl f) = rw e (inl f)
  Step-Sound {s} (asks c n e) (inr h) = rw e (inr (asks-Inv c s n h))
  Step-Sound (fails c n e) h = rw e (inl refl)
  Step-Sound (draws f errs e) (inl q) = rw e (inl q)
  Step-Sound {s} (draws f errs e) (inr h) = rw e (inr (draws-Inv f errs s h))
  Step-Sound (opens panel e) (inl f) = rw e (inl f)
  Step-Sound (opens panel e) (inr (channels, l, p)) = rw e (inr (channels, l, p))
  Step-Sound (others syncs same e) (inl f) = rw e (inl f)
  Step-Sound (others syncs same e) (inr (channels, l, p)) = rw e (inr (channels, same ∙ l, p))
  Step-Sound (receives c b syncs waiting r e) (inl f) = rw e (inl f)
  Step-Sound {s} (receives c b syncs waiting r e) (inr h) =
      rw e (inr (receives-Inv c b syncs s waiting r h))

  Reach-Sound : {s t : System} → Sound s → Reach j s t → Sound t
  Reach-Sound h here = h
  Reach-Sound h (next r st) = Step-Sound st (Reach-Sound h r)

  -- From a start with fresh channels, in whatever order the job and the window take their steps, as long as no
  -- request of the job for the window has failed: a decision that the job receives on its changes is the last
  -- answer that the user has given to the job, and it was given while the window showed these changes.
  pub receive_decision-shown :
      (start s : System) (c : Changes) (b : Bool) (syncs : SyncExchanger)
      → lookup j start.syncs ≡ some (record { changes = none; answers = [] })
      → start.asked ≡ none
      → Reach j start s
      → s.failed ≡ false
      → s.asked ≡ some c
      → receive_decision j s.syncs ≡ (some b, syncs)
      → last_for j s.given ≡ some (c, b)
  unfolding Decided
  receive_decision-shown start s c b syncs fresh idle reached sent waiting r =
      elim (Reach-Sound {s = start} (inr (_, fresh, rw idle (refl, refl))) reached) [
        | inl f ↦ absurd (ground (arith, f, sent))
        | inr (channels, l, p) ↦
            let q : Phase (some c) channels s.given =
              Phase-at s.asked (some c) channels s.given waiting p in
            (received-Decided c b syncs s channels l q r).0
      ]
