-- ===== src/Monitor/Unseen.antt =====
-- monitor/src/app.rs with trsync/src/run2.rs and the icon: a second error of a job.
use trsync.Base.{
  true, false, ◌≡◌, refl, sym, ap, ◌∙◌, Option, none, some, Option-cases, inl, inr, List, [], ◌∷◌,
  arith,
}
use trsync.Base.HashMap.{lookup, insert, lookup-insert}
use trsync.Core.Job.{JobIdentifier, job_eq}
use trsync.Runner.{RunnerError}
use trsync.Runner.Process.{Decision}
use trsync.Monitor.{
  SyncExchanger, ErrorChannels, ErrorExchanger, Panel, root, startup_synchronizations, errors, App,
  Frame, or_first, error_spaces, with_defaults, panel_of, update_error_space_seen, decided,
  decisions_of, ignored_id, errors_display, body, update,
}
use trsync.Monitor.Icon.{calls}

abbrev with_error :
    JobIdentifier → RunnerError → Option ErrorChannels → ErrorExchanger → ErrorExchanger
with_error j e none channels = channels
with_error j e (some found) channels = insert j (record found { error = some e }) channels

-- `run` of trsync/src/run2.rs: the error is put before the user.
unfoldable pub report : JobIdentifier → RunnerError → ErrorExchanger → ErrorExchanger
unfolding insert
report j e channels = with_error j e (lookup j channels) channels

module _ (j : JobIdentifier) where
  abbrev pub Seen : ErrorExchanger → Type 0
  Seen channels = (found : ErrorChannels) × (lookup j channels ≡ some found) × (found.seen ≡ true)

  lookup-insert_self :
      (found : ErrorChannels) (channels : ErrorExchanger)
      → lookup j (insert j found channels) ≡ some found
  lookup-insert_self found channels = ground (arith, lookup-insert j j found channels)

  Seen-insert :
      (space : JobIdentifier) (found changed : ErrorChannels) (channels : ErrorExchanger)
      → lookup space channels ≡ some found
      → changed.seen ≡ found.seen
      → Seen channels
      → Seen (insert space changed channels)
  Seen-insert space found changed channels l same (mine, m, seen) = elim (job_eq.dec space j) [
    | yes p ↦
        let eq : some found ≡ some mine = sym l ∙ ap (λ k. lookup k channels) p ∙ m in
        let one : found ≡ mine = cc eq in
        (
          changed,
          ground (arith, p, lookup-insert j space changed channels),
          same ∙ ap (λ x. x.seen) one ∙ seen,
        )
    | no n ↦ (mine, ground (arith, lookup-insert j space changed channels), seen)
  ]

  decided-Seen :
      (a : App) (channels : ErrorExchanger) (space : JobIdentifier) (found : ErrorChannels)
      (ds : List Decision)
      → lookup space channels ≡ some found
      → Seen channels
      → Seen (decided a channels space found ds).1
  decided-Seen a channels space found [] l s = s
  decided-Seen a channels space found (d ∷ ds) l s = Seen-insert space found _ channels l refl s

  errors_display-Seen :
      (f : Frame) (a : App) (channels : ErrorExchanger)
      → Seen channels
      → Seen (errors_display f a channels).1
  unfolding errors_display
  errors_display-Seen f a channels s = elim (Option-cases a.current_error_space) [
    | inl n ↦ rw (errors_display, n) s
    | inr (space, y) ↦ elim (Option-cases (lookup space channels)) [
      | inl n ↦ rw (errors_display, y, n) s
      | inr (found, l) ↦ elim (Option-cases found.error) [
        | inl n ↦ rw (errors_display, y, l, n) s
        | inr (e, h) ↦
            rw (errors_display, y, l, h)
              (decided-Seen a channels space found (decisions_of f (ignored_id e)) l s)
      ]
    ]
  ]

  body-Seen :
      (f : Frame) (panel : Panel) (a : App) (syncs : SyncExchanger) (channels : ErrorExchanger)
      → Seen channels
      → Seen (body f panel a syncs channels).errors_
  unfolding body
  body-Seen f root a syncs channels s = s
  body-Seen f startup_synchronizations a syncs channels s = s
  body-Seen f errors a syncs channels s = errors_display-Seen f _ channels s

  report-Seen :
      (e : RunnerError) (channels : ErrorExchanger)
      → Seen channels
      → (found : ErrorChannels) × (lookup j (report j e channels) ≡ some found)
        × (found.error ≡ some e)
        × (calls found ≡ false)
  unfolding report
  report-Seen e channels (found, l, seen) = (
    record found { error = some e },
    rw (report, l) (lookup-insert_self (record found { error = some e }) channels),
    refl,
    ground arith,
  )

  update_error_space_seen-Seen :
      (a : App) (channels : ErrorExchanger) (found : ErrorChannels)
      → a.current_panel ≡ errors
      → a.current_error_space ≡ some j
      → lookup j channels ≡ some found
      → Seen (update_error_space_seen a channels)
  unfolding update_error_space_seen
  update_error_space_seen-Seen a channels found panel space l =
      rw (update_error_space_seen, panel, space, l)
        (
          record found { seen = true },
          lookup-insert_self (record found { seen = true }) channels,
          refl,
        )

  -- Where the window shows the errors of a job, in its panel of errors, a later error of the job does not make the
  -- icon call for the user, whatever the user does in that frame.
  pub update-report_unseen :
      (f : Frame) (a : App) (syncs : SyncExchanger) (channels : ErrorExchanger)
      (found : ErrorChannels) (e : RunnerError)
      → a.current_panel ≡ errors
      → a.current_error_space ≡ some j
      → lookup j channels ≡ some found
      → (later : ErrorChannels) × (lookup j (report j e (update f a syncs channels).errors_)
          ≡ some later)
        × (later.error ≡ some e)
        × (calls later ≡ false)
  unfolding update with_defaults or_first
  update-report_unseen f a syncs channels found e panel space l =
      let a1 : App = with_defaults a syncs channels in
      let shown : a1.current_error_space ≡ some j =
        ap (λ o. or_first o (error_spaces channels)) space in
      report-Seen e (update f a syncs channels).errors_ (
        body-Seen f (panel_of f.panel a.current_panel)
          (record a1 { current_panel = panel_of f.panel a.current_panel }) syncs
          (update_error_space_seen a1 channels)
          (update_error_space_seen-Seen a1 channels found panel shown l))
