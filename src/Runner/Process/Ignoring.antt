-- ===== src/Runner/Process/Ignoring.antt =====
-- trsync/src/run2.rs: a content that the user ignores after an error.
use Prim.Native.Nat.{◌^◌}
use trsync.Base.{◌<◌, false, Bool-cases, inl, inr, some, ok, err, ◌≡◌, ap, sym, ◌∙◌, arith}
use trsync.Base.Lines.{Text}
use trsync.Core.Types.{ContentId}
use trsync.Ignore.{Ignore, try_from, to_string, push, write}
use trsync.Ignore.RoundTrip.{IsI32, try_from-to_string, try_from-write-push}
use trsync.Runner.{Activity, idle, error, RunnerError}
use trsync.Runner.Process.{
  Process, ignore_and_restart_space_sync, continue, attempt, on_error, decided, check_stop,
}

-- What a file system says of the ignore file, and that only `run` writes it.
pub record KeepsFile (P : Process) : Type 0 where
  pub read-save : (t : Text) (w : P.World) → P.read_ignore (P.save_ignore t w) ≡ ok t
  pub open_ignore-read : (t : Text) (w : P.World) → P.read_ignore w ≡ ok t → P.open_ignore w ≡ ok t
  pub read-run_runner :
      (ignore : Ignore) (w : P.World) → P.read_ignore (P.run_runner ignore w).1 ≡ P.read_ignore w
  pub read-set_activity :
      (a : Activity) (w : P.World) → P.read_ignore (P.set_activity a w).1 ≡ P.read_ignore w
  pub read-report : (e : RunnerError) (w : P.World) → P.read_ignore (P.report e w) ≡ P.read_ignore w
  pub read-decision : (w : P.World) → P.read_ignore (P.decision w).1 ≡ P.read_ignore w

module _ (P : Process) (K : KeepsFile P) where
  decided_saves :
      (ignore : Ignore) (id : ContentId) (w : P.World) (written : Text)
      → write (push id ignore) (P.open_ignore w) ≡ ok written
      → decided P ignore (ignore_and_restart_space_sync id) w ≡ P.save_ignore written w
  unfolding decided
  decided_saves ignore id w written e = ground (arith, e)

  decided-read :
      (ignore : Ignore) (id : ContentId) (w : P.World)
      → IsI32 ignore.content_ids
      → id < 2 ^ 32
      → P.read_ignore w ≡ ok (to_string ignore)
      → try_from (P.read_ignore (decided P ignore (ignore_and_restart_space_sync id) w))
        ≡ ok (push id ignore)
  decided-read ignore id w h p r =
      let (written, e, back) = try_from-write-push ignore id h p in
      rw
        (
          decided_saves ignore id w written (rw (K.open_ignore-read (to_string ignore) w r) e),
          K.read-save written w,
        )
        back

  check_stop-continue : (w w' : P.World) → check_stop P w ≡ continue w' → w ≡ w'
  unfolding check_stop
  check_stop-continue w w' h = ground arith

  on_error-read :
      (ignore : Ignore) (id : ContentId) (e : RunnerError) (w w' : P.World)
      → IsI32 ignore.content_ids
      → id < 2 ^ 32
      → P.read_ignore w ≡ ok (to_string ignore)
      → P.is_connection e ≡ false
      → (P.decision (P.report e (P.set_activity error w).1)).0
        ≡ some (ignore_and_restart_space_sync id)
      → on_error P ignore e w ≡ continue w'
      → try_from (P.read_ignore w') ≡ ok (push id ignore)
  unfolding on_error
  on_error-read ignore id e w w' h p r c d t =
      let w1 = (P.set_activity error w).1 in
      let w2 = (P.decision (P.report e w1)).1 in
      let w3 = decided P ignore (ignore_and_restart_space_sync id) w2 in
      let kept =
        K.read-decision (P.report e w1) ∙ K.read-report e w1 ∙ K.read-set_activity error w ∙ r in
      elim (Bool-cases P.has_error_channels) [
        | inr n ↦ absurd (ground arith)
        | inl y ↦ elim (Bool-cases (P.set_activity error w).0) [
          | inr n ↦ absurd (ground arith)
          | inl a ↦ elim (Bool-cases (P.set_activity idle w3).0) [
            | inr n ↦ absurd (ground arith)
            | inl b ↦
                let same = check_stop-continue (P.set_activity idle w3).1 w' (ground arith) in
                rw (← same, K.read-set_activity idle w3) (decided-read ignore id w2 h p kept)
          ]
        ]
      ]

  attempt_failing :
      (ignore : Ignore) (e : RunnerError) (w w1 : P.World)
      → try_from (P.read_ignore w) ≡ ok ignore
      → P.run_runner ignore w ≡ (err e, w1)
      → attempt P w ≡ on_error P ignore e w1
  unfolding attempt
  attempt_failing ignore e w w1 r f =
      rw (attempt, r, f) (ap (on_error P ignore e) (ap (λ x. x.1) f))

  pub attempt-ignoring :
      (ignore : Ignore) (id : ContentId) (e : RunnerError) (w w1 w' : P.World)
      → IsI32 ignore.content_ids
      → id < 2 ^ 32
      → P.read_ignore w ≡ ok (to_string ignore)
      → P.run_runner ignore w ≡ (err e, w1)
      → P.is_connection e ≡ false
      → (P.decision (P.report e (P.set_activity error w1).1)).0
        ≡ some (ignore_and_restart_space_sync id)
      → attempt P w ≡ continue w'
      → try_from (P.read_ignore w') ≡ ok (push id ignore)
  attempt-ignoring ignore id e w w1 w' h p r f c d t =
      let w1_read = rw f at (K.read-run_runner ignore w) in
      on_error-read ignore id e w1 w' h p (w1_read ∙ r) c d
        (sym (attempt_failing ignore e w w1 (ap try_from r ∙ try_from-to_string ignore h) f) ∙ t)
