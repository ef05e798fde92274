-- ===== src/Operation/Operator/Retry.antt =====
-- The retries of trsync/src/operation/operator.rs.
use trsync.Base.{ℕ, suc, List, [], ◌∷◌, ◌++◌, ok, err, ◌≡◌, refl, ◌∙◌, arith}
use trsync.Core.Error.{timeout_error, tracim, maximum_retry_count, executor_error}
use trsync.State.{StateModification}
use trsync.Operation.Host.{Host}
use trsync.Operation.Exec.{Context, Exec}
use trsync.Operation.Operator.{Executor, retry_count_max, try_executor, run_executors, run_event}

module _ {H : Host} (execute : Executor → Exec H (List StateModification)) where
  -- Calls of an executor in a row that answer with a time-out, with the tries and the context before
  -- them and after them.
  pub data TimesOut (e : Executor) : ℕ → Context H → ℕ → Context H → Type 0 where
    stop : {tries : ℕ} {c : Context H} → TimesOut e tries c tries c
    again :
        {tries left : ℕ} {c c' c'' : Context H}
        → execute e c ≡ (err (tracim timeout_error), c')
        → TimesOut e tries c' left c''
        → TimesOut e (suc tries) c left c''

  try_executor-TimesOut :
      (e : Executor) (tries left : ℕ) {c c' : Context H}
      → TimesOut e tries c left c'
      → try_executor execute e tries c ≡ try_executor execute e left c'
  unfolding try_executor
  try_executor-TimesOut e tries left stop = refl
  try_executor-TimesOut e (suc tries) left (again p rest) =
      ground (arith, try_executor-TimesOut e tries left rest)

  pub run_executors-TimesOut :
      (e : Executor) (rest : List Executor) (tries left : ℕ) (changes : List StateModification)
      {c c' : Context H}
      → TimesOut e tries c left c'
      → run_executors execute (e ∷ rest) tries changes c
        ≡ run_executors execute (e ∷ rest) left changes c'
  unfolding run_executors
  run_executors-TimesOut e rest tries left changes {c} {c'} late =
      ground (arith, try_executor-TimesOut e tries left late)

  pub run_executors-ok :
      (e : Executor) (rest : List Executor) (tries left : ℕ) (changes more : List StateModification)
      {c c' c'' : Context H}
      → TimesOut e tries c (suc left) c'
      → execute e c' ≡ (ok more, c'')
      → run_executors execute (e ∷ rest) tries changes c
        ≡ run_executors execute rest (suc left) (changes ++ more) c''
  unfolding run_executors try_executor
  run_executors-ok e rest tries left changes more late p =
      run_executors-TimesOut e rest tries (suc left) changes late ∙ ground arith

  -- The five tries of an event are shared by its executors: where the first of two answers with
  -- fewer than five time-outs and then succeeds, and the second one uses up the tries that are
  -- left, the event fails with the maximum of retries, and nothing is called after that.
  pub run_event-shared_budget :
      (e f : Executor) (rest : List Executor) (left : ℕ) (changes : List StateModification)
      {c c' c'' c''' : Context H}
      → TimesOut e retry_count_max c (suc left) c'
      → execute e c' ≡ (ok changes, c'')
      → TimesOut f (suc left) c'' 0 c'''
      → run_event execute (e ∷ f ∷ rest) c ≡ (err (executor_error maximum_retry_count), c''')
  unfolding run_executors try_executor
  run_event-shared_budget e f rest left changes late p later =
      run_executors-ok e (f ∷ rest) retry_count_max left [] changes late p
      ∙ run_executors-TimesOut f rest (suc left) 0 changes later
