-- ===== src/Task/Io/Cleanup.antt =====
-- Whatever fails in a run of an I/O task, it leaves no test file.
use cyclone_distributed_task.Prelude.{none, some, true, false, Bool, ◌≡◌, refl, Text, Option}
use cyclone_distributed_task.Py.Result.{Result, ok, err}
use cyclone_distributed_task.Py.Exec.{Exec, and_then}
use cyclone_distributed_task.Py.Number.{remainder}
use cyclone_distributed_task.Task.Io.{Floats, IoTask, PerfResult}
use cyclone_distributed_task.Task.Io.Block.{IoState, initialize_payload}
use cyclone_distributed_task.Task.Io.Execute.{
  Answers, Io, auto_remove, perf_test, test_if_active, send_result, try_execute, execute,
}
use cyclone_distributed_task.Task.Io.Alert.{Alarms, AlertTask, alert_execute}

-- What holds of the state before the rest and of each state after it holds after both.
and_then_holds :
    {A B : Type 0} (P : IoState → Type 0) (r : Result A) (f : A → Exec IoState B) (s : IoState)
    → P s
    → ((a : A) → P (f a s).1)
    → P (and_then r f s).1
and_then_holds P (ok a) f s before after = after a
and_then_holds P (err e) f s before after = before

abbrev HasNoFile : IoState → Type 0
HasNoFile s = s.file ≡ none

initialize_payload-HasNoFile :
    (t : IoTask) (s : IoState) → HasNoFile s → HasNoFile (initialize_payload t s).1
unfolding initialize_payload
initialize_payload-HasNoFile t s h =
    and_then_holds HasNoFile (remainder t.total_size_bytes t.block_size_bytes) _ _ h (λ rest. h)

auto_remove-HasNoFile :
    {A : Type 0} (answer : Result (Unit {0})) (m : Exec IoState A) (s : IoState)
    → answer ≡ ok tt
    → HasNoFile (auto_remove answer m s).1
unfolding auto_remove
auto_remove-HasNoFile answer m s exits = go (m s).0 (m s).1 (m s).1.file refl
  where
    go :
        {A : Type 0} (r : Result A) (after : IoState) (file : Option Text)
        → after.file ≡ file
        → HasNoFile (auto_remove answer (λ _. (r, after)) s).1
    go r after none e = simp e
    go r after (some content) e = simp (e, exits)

test_if_active-HasNoFile :
    (fl : Floats) (a : Answers fl) (on_write on_read : Io) (t : IoTask) (active : Bool)
    (s : IoState)
    → a.removes_at_exit ≡ ok tt
    → HasNoFile s
    → HasNoFile (test_if_active fl a on_write on_read t active s).1
unfolding test_if_active
test_if_active-HasNoFile fl a on_write on_read t false s exits h = h
test_if_active-HasNoFile fl a on_write on_read t true s exits h =
    and_then_holds HasNoFile (initialize_payload t s).0 _ _ (initialize_payload-HasNoFile t s h)
      (λ _.
        auto_remove-HasNoFile a.removes_at_exit (perf_test fl a on_write on_read t)
          (initialize_payload t s).1 exits)

send_result-HasNoFile :
    (fl : Floats) (a : Answers fl) (endpoint : Option Text) (r : PerfResult fl) (s : IoState)
    → HasNoFile s
    → HasNoFile (send_result fl a endpoint r s).1
unfolding send_result
send_result-HasNoFile fl a none r s h = h
send_result-HasNoFile fl a (some endpoint) r s h = and_then_holds HasNoFile a.sends _ s h (λ _. h)

try_execute-HasNoFile :
    (fl : Floats) (a : Answers fl) (on_write on_read : Io) (t : IoTask) (s : IoState)
    → a.removes_at_exit ≡ ok tt
    → HasNoFile s
    → HasNoFile (try_execute fl a on_write on_read t s).1
unfolding try_execute
try_execute-HasNoFile fl a on_write on_read t s exits h =
    and_then_holds HasNoFile (a.is_ost_idx_active t.lfs_target t.ost_idx) _ s h (λ active.
      let tested = test_if_active-HasNoFile fl a on_write on_read t active s exits h in
      and_then_holds HasNoFile (test_if_active fl a on_write on_read t active s).0 _ _ tested
        (λ r. send_result-HasNoFile fl a t.db_proxy_endpoint r _ tested))

-- Whatever raises in the run of an I/O task or of an alert task, the run raises nothing, and it leaves no test
-- file if there was none before and the removal at the end of the block succeeds where there is a file.
pub execute-HasNoFile :
    (fl : Floats) (a : Answers fl) (alarms : Alarms) (t : AlertTask) (s : IoState)
    → a.removes_at_exit ≡ ok tt
    → s.file ≡ none
    → ((execute fl a t.base s).0 ≡ ok tt)
      × ((execute fl a t.base s).1.file ≡ none)
      × ((alert_execute fl a alarms t s).0 ≡ ok tt)
      × ((alert_execute fl a alarms t s).1.file ≡ none)
unfolding execute alert_execute
execute-HasNoFile fl a alarms t s exits h = (
  refl,
  try_execute-HasNoFile fl a _ _ t.base s exits h,
  refl,
  try_execute-HasNoFile fl a _ _ t.base s exits h,
)
