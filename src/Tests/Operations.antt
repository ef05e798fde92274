-- ===== src/Tests/Operations.antt =====
-- The operator and its executors.
use trsync.Base.{
  ℕ, suc, ◌≡◌, ◌≢◌, refl, ap, true, false, Option, none, some, List, [], ◌∷◌, ◌++◌, ok, err,
  contains, nat_eq, list_eq, string_eq, ◌==◌, if◌then◌else◌, arith,
}
use mathlib.Core.Bool.{true≢false}
use trsync.Core.Types.{ContentId, file, from_str, fillable}
use trsync.Core.Content.{Content, from_remote}
use trsync.Core.Content
use trsync.Core.Error.{unexpected, tracim, timeout_error, maximum_retry_count, executor_error}
use trsync.Event.{DiskEvent, RemoteEvent, Event, wrap, event_eq}
use trsync.State.{StateModification}
use trsync.State.Path.{to_path_buf, path_loop}
use trsync.State.Memory.{
  MemoryState, memory_state, get, known, path, path_within, content_id_for_path, search_path,
}
use trsync.Operation.Exec.{Context, Exec, raise, ◌>>=◌, lift, expect}
use trsync.Operation.Remote.Absent.{absent_from_remote}
use trsync.Operation.Remote.Modified.{modified_on_remote}
use trsync.Operation.Remote.Restore.{modified_on_remote-failed_upload}
use trsync.Operation.Operator.{
  Executor, Operator, operate, proceed, is_attachment, qualify, executors, local_executors, execute,
  try_executor, run_executors, run_event, conclude,
}
use trsync.Operation.Operator.Retry.{stop, again, run_event-shared_budget}
use trsync.Operation.Operator.Failure.{operate-failure}
use trsync.Operation.Operator.Kept.{operate-Kept}
use trsync.Tests.Data.{path_a, path_b, workspace, content_of, raw, host, start}

abbrev flat : MemoryState
flat = record { contents = (1, content_of 1 "a.txt" none file) ∷ []; timestamps = [] }

abbrev announced : Event
announced = Event.remote (RemoteEvent.deleted 1)

abbrev refused : Event
refused = Event.local (wrap path_b (DiskEvent.deleted path_b))

abbrev operator : Operator host memory_state workspace
operator = record { state = flat; context = record start { ignore_events = announced ∷ [] } }

differ : announced ≢ refused
differ = λ e. ground arith

here : contains operator.context.ignore_events announced ≡ true
unfolding event_eq
here = refl

fails :
    operate host memory_state workspace 1 refused operator
    ≡ some (err (executor_error unexpected), operator)
unfolding operate is_attachment proceed qualify executors local_executors execute run_executors
    try_executor conclude absent_from_remote content_id_for_path search_path path path_within
    path_loop to_path_buf expect raise lift ◌>>=◌ event_eq nat_eq list_eq string_eq
fails = refl

operate-failure_example : flat ≡ flat
operate-failure_example =
    operate-failure host memory_state workspace 1 refused operator unexpected operator fails

operate-Kept_example : contains operator.context.ignore_events announced ≡ true
operate-Kept_example =
    operate-Kept host memory_state workspace 1 refused operator announced
      (err (executor_error unexpected)) operator (λ e. ground arith) fails here

unknown : known flat 5 ≡ ok false
unfolding known nat_eq
unknown = refl

-- It answers with a time-out but at its second call.
abbrev late : Executor → Exec host (List StateModification)
late x c =
    (if c.world == 1 then ok [] else err (tracim timeout_error), record c { world = suc c.world })

abbrev at : ℕ → Context host
at n = record { world = n; ignore_events = [] }

run_event-shared_budget_example :
    run_event late (Executor.absent_from_disk 1 ∷ Executor.present_on_disk 2 ∷ []) (at 0)
    ≡ (err (executor_error maximum_retry_count), at 6)
unfolding nat_eq
run_event-shared_budget_example =
    run_event-shared_budget late (Executor.absent_from_disk 1) (Executor.present_on_disk 2) [] 3 []
      {c = at 0} {c' = at 1} {c'' = at 2} {c''' = at 6} (again refl stop) refl
      (again refl (again refl (again refl (again refl stop))))

parts_of_flat : path flat 1 ≡ ok (content_of 1 "a.txt" none file ∷ [])
unfolding path path_within path_loop nat_eq
parts_of_flat = refl

known_content : get flat 1 ≡ ok (some (content_of 1 "a.txt" none file))
unfolding get nat_eq
known_content = refl

abbrev remote_of : ContentId → Option ContentId → Content
remote_of id parent_id = record {
  id = id;
  revision_id = 2;
  file_name = "b.txt";
  parent_id = parent_id;
  type_ = file;
}

read : (id : ContentId) → from_remote (raw id none) ≡ ok (remote_of id none)
unfolding from_remote Content.new from_str string_eq
read id = refl

read_4 : from_remote (raw 4 (some 8)) ≡ ok (remote_of 4 (some 8))
unfolding from_remote Content.new from_str string_eq nat_eq
read_4 = refl

apart : workspace ++ path_a ≢ workspace ++ path_b
unfolding list_eq string_eq
apart = λ e. true≢false (ap (λ p. p == (workspace ++ path_a)) e)

id_of_a : content_id_for_path flat path_a ≡ ok (some 1)
unfolding content_id_for_path search_path path path_within path_loop to_path_buf list_eq string_eq
    nat_eq
id_of_a = refl

modified_on_remote-failed_upload_example :
    modified_on_remote host memory_state workspace flat path_a start
    ≡ (ok (StateModification.update 1 "b.txt" 2 none 7 ∷ []), record start { world = 1 })
unfolding fillable nat_eq
modified_on_remote-failed_upload_example =
    modified_on_remote-failed_upload host memory_state workspace flat path_a 1
      (content_of 1 "a.txt" none file) (remote_of 1 none) (raw 1 none)
      (content_of 1 "a.txt" none file ∷ []) start timeout_error 1 1 7 id_of_a parts_of_flat
      known_content refl refl refl (read 1) refl
