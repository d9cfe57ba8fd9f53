-- ===== src/Controller/WorkerRuns.antt =====
-- What a worker of worker.py does with the tasks in its queue.
use cyclone_distributed_task.Prelude.{
  Bool, false, ◌≡◌, some, List, [], ◌∷◌, ◌++◌, Text, ltb, is_nil, if◌then◌else◌, true, none, map,
  sym, append-nil, ◌∙◌, append_assoc, refl,
}
use cyclone_distributed_task.Py.Result.{ok}
use cyclone_distributed_task.Ctrl.SharedQueue.{pop, push}
use cyclone_distributed_task.Task.Object.{Task}
use cyclone_distributed_task.Controller.Worker.{
  Execution, returns, raises, exits, hangs, execute, after_execute, conclude, ready, byte_length,
  set_tid, WorkerProcess, WorkerRound, to_uint, enter, work, worker_round, run_rounds, executing,
}

-- The state table can hold the id of the task.
abbrev pub Fits : Task → Text → Type 0
Fits task tid = (task.tid ≡ some tid) × (is_nil tid ≡ false) × (ltb 64 (byte_length tid) ≡ false)

-- The call of `execute` is over: it has returned or raised.
abbrev pub is_over : Execution → Bool
is_over returns = true
is_over (raises e) = true
is_over _ = false

-- The worker behind a task: it is ready, it has executed the task, and the id of the task is the last result.
abbrev pub served : WorkerRound → Task → Text → List Task → WorkerProcess → WorkerProcess
served r task tid rest s = record {
  item = record { state = ready; tid = []; timestamp = to_uint r.end_time };
  task_queue = record { items = rest };
  result_queue = record { items = s.result_queue.items ++ some tid ∷ [] };
  run_flag = if r.is_shut_down then false else s.run_flag;
  executed = s.executed ++ task ∷ [];
}

after_execute-conclude :
    (r : WorkerRound) (task : Task) (execution : Execution) (s : WorkerProcess)
    → is_over execution ≡ true
    → after_execute r task execution s ≡ conclude r task s
unfolding after_execute
after_execute-conclude r task returns s over = refl
after_execute-conclude r task (raises e) s over = refl
after_execute-conclude r task (exits n) s over = cc over
after_execute-conclude r task hangs s over = cc over

conclude-eq :
    (r : WorkerRound) (task : Task) (tid : Text) (s : WorkerProcess)
    → Fits task tid
    → conclude r task s ≡ (
      ok none,
      record s {
        item = record { state = ready; tid = []; timestamp = to_uint r.end_time };
        result_queue = record { items = s.result_queue.items ++ some tid ∷ [] };
      },
    )
unfolding conclude enter set_tid push
conclude-eq r task tid s f = simp (f.0, f.1)

pub worker_round-served :
    (r : WorkerRound) (task : Task) (tid : Text) (rest : List Task) (s : WorkerProcess)
    → s.task_queue.items ≡ task ∷ rest
    → Fits task tid
    → is_over (r.execute task) ≡ true
    → worker_round r s ≡ (ok none, served r task tid rest s)
unfolding worker_round work execute enter set_tid pop
worker_round-served r task tid rest s h f over = simp (
  h,
  f.0,
  f.2,
  after_execute-conclude r task (r.execute task) began over,
  conclude-eq r task tid began f,
)
  where
    began : WorkerProcess
    began = record s {
      item = record { state = executing; tid = tid; timestamp = to_uint r.begin_time };
      task_queue = record { items = rest };
      run_flag = if r.is_shut_down then false else s.run_flag;
      executed = s.executed ++ task ∷ [];
    }

-- One round for each task, with no signal to shut down, and an id for each that fits.
abbrev pub AreServed : List WorkerRound → List Task → List Text → Type 0
AreServed [] [] [] = Unit
AreServed (r ∷ rs) (task ∷ tasks) (tid ∷ tids) =
    (r.is_shut_down ≡ false)
    × Fits task tid
    × (is_over (r.execute task) ≡ true)
    × AreServed rs tasks tids
AreServed _ _ _ = ⊥

run_rounds-cons :
    (r : WorkerRound) (rs : List WorkerRound) (task : Task) (tid : Text) (rest : List Task)
    (s : WorkerProcess)
    → s.run_flag ≡ true
    → s.task_queue.items ≡ task ∷ rest
    → Fits task tid
    → is_over (r.execute task) ≡ true
    → run_rounds (r ∷ rs) s ≡ run_rounds rs (served r task tid rest s)
unfolding run_rounds
run_rounds-cons r rs task tid rest s on h f over =
    simp (on, h, worker_round-served r task tid rest s h f over)

-- A running worker whose calls of `execute` return or raise, and whose tasks have ids that fit, serves the
-- tasks of its queue in order while no signal comes: each is taken from the queue and its `execute` is called once, the id
-- of each comes to the result queue once, in the order of the tasks, and the worker goes on running.
pub run_rounds-reports :
    (rs : List WorkerRound) (tasks : List Task) (tids : List Text) (s : WorkerProcess)
    → s.run_flag ≡ true
    → s.task_queue.items ≡ tasks
    → AreServed rs tasks tids
    → (t : WorkerProcess) × (run_rounds rs s ≡ (none, t))
      × (t.result_queue.items ≡ s.result_queue.items ++ map some tids)
      × (t.executed ≡ s.executed ++ tasks)
      × (t.task_queue.items ≡ [])
      × (t.run_flag ≡ true)
unfolding run_rounds
run_rounds-reports [] [] [] s on h f = (s, refl, sym (append-nil _), sym (append-nil _), h, on)
run_rounds-reports [] [] (tid ∷ tids) s on h f = elim f [ ]
run_rounds-reports [] (task ∷ tasks) tids s on h f = elim f [ ]
run_rounds-reports (r ∷ rs) [] tids s on h f = elim f [ ]
run_rounds-reports (r ∷ rs) (task ∷ tasks) [] s on h f = elim f [ ]
run_rounds-reports (r ∷ rs) (task ∷ tasks) (tid ∷ tids) s on h f =
    let after = served r task tid tasks s in
    let still_on : after.run_flag ≡ true = rw f.0 on in
    let (t, e, results, executed, empty, run) =
      run_rounds-reports rs tasks tids after still_on refl f.3 in
    (
      t,
      run_rounds-cons r rs task tid tasks s on h f.1 f.2 ∙ e,
      results ∙ append_assoc s.result_queue.items (some tid ∷ []) (map some tids),
      executed ∙ append_assoc s.executed (task ∷ []) tasks,
      empty,
      run,
    )

-- An id of more than 64 bytes ends a running worker with the exit code 1: its task is taken from the
-- queue and not executed, no result is pushed, and the table says that the worker executes.
pub run_rounds-too_long :
    (r : WorkerRound) (rs : List WorkerRound) (task : Task) (tid : Text) (rest : List Task)
    (s : WorkerProcess)
    → s.run_flag ≡ true
    → s.task_queue.items ≡ task ∷ rest
    → task.tid ≡ some tid
    → ltb 64 (byte_length tid) ≡ true
    → let r = run_rounds (r ∷ rs) s in
      (r.0 ≡ some 1)
      × (r.1.task_queue.items ≡ rest)
      × (r.1.result_queue ≡ s.result_queue)
      × (r.1.executed ≡ s.executed)
      × (r.1.item.state ≡ executing)
unfolding run_rounds worker_round work enter set_tid pop push
run_rounds-too_long r rs task tid rest s on h e long =
    simp (on, h, e, long) (refl, refl, refl, refl, refl)
