-- ===== src/Generator/Benchmark.antt =====
-- task/generator/benchmark_task_generator.py
use cyclone_distributed_task.Prelude.{
  ℕ, zero, suc, Bool, false, not, ◌&&◌, List, [], ◌∷◌, ◌++◌, Text, ℤ, pos, ltb, int_leb,
  if◌then◌else◌, Option, ◌≡◌, ap, some, refl,
}
use cyclone_distributed_task.Py.Result.{
  Result, ok, config_value_out_of_range_error, ◌>>=◌, ◌>>◌, raise_if,
}
use cyclone_distributed_task.Py.Int
use cyclone_distributed_task.Ctrl.SharedQueue
use cyclone_distributed_task.Ctrl.SharedQueue.{SharedQueue}
use cyclone_distributed_task.Task.Object.{Task, text, set_tid, instantiate}
use cyclone_distributed_task.Task.Classes.{benchmark_task}
use cyclone_distributed_task.Generator.Filling.{refill, refill_lem}

-- `validate_config`
unfoldable pub validate_config : (num_tasks poll_time_ms : ℤ) → Result (Unit {0})
validate_config num_tasks poll_time_ms = do
  raise_if (not (int_leb (pos 1) num_tasks && int_leb num_tasks (pos 100000000)))
      config_value_out_of_range_error
  raise_if (not (int_leb (pos 1) poll_time_ms && int_leb poll_time_ms (pos 1000)))
      config_value_out_of_range_error

-- `_create_task_list` from this number on
unfoldable pub create_tasks_from : ℕ → ℕ → Result (List Task)
create_tasks_from zero i = ok []
create_tasks_from (suc n) i = do
  blank ← instantiate benchmark_task []
  task ← set_tid blank (text (Int.format (pos i)))
  rest ← create_tasks_from n (suc i)
  ok (task ∷ rest)

unfoldable pub create_task_list : ℕ → Result (List Task)
create_task_list num_tasks = create_tasks_from num_tasks 0

-- The variables of the loop of `run`. `results` of a round come into the result queue before it.
pub record BenchmarkState : Type 0 where
  pub completed_tasks : ℕ
  pub result_queue : SharedQueue Text
  pub run_flag : Bool

unfoldable pub round : ℕ → List Text → BenchmarkState → BenchmarkState
round len_task_list results s =
    let q : SharedQueue Text = record { items = s.result_queue.items ++ results } in
    let (tid, rest) = SharedQueue.pop_nowait q in
    if ltb s.completed_tasks len_task_list
    then (if SharedQueue.is_empty q
        then record s { result_queue = q }
        else record s { completed_tasks = suc s.completed_tasks; result_queue = rest })
    else record s { result_queue = q; run_flag = false }

unfoldable pub run : ℕ → List (List Text) → BenchmarkState → BenchmarkState
run len_task_list [] s = s
run len_task_list (results ∷ rounds) s =
    let next = run len_task_list rounds (round len_task_list results s) in
    if s.run_flag then next else s

-- `run` before the loop
unfoldable pub start : ℕ → SharedQueue Task → Result (SharedQueue Task)
start num_tasks q = do task_list ← create_task_list num_tasks; refill task_list q

abbrev pub numbers : ℕ → ℕ → List (Option Text)
numbers zero i = []
numbers (suc n) i = some (Int.format (pos i)) ∷ numbers n (suc i)

abbrev pub tids : List Task → List (Option Text)
tids [] = []
tids (task ∷ tasks) = task.tid ∷ tids tasks

create_tasks-numbers :
    (n i : ℕ)
    → (tasks : List Task) × (create_tasks_from n i ≡ ok tasks) × (tids tasks ≡ numbers n i)
unfolding create_tasks_from set_tid instantiate benchmark_task
create_tasks-numbers zero i = ([], refl, refl)
create_tasks-numbers (suc n) i =
    let (tasks, e, h) = create_tasks-numbers n (suc i) in
    let numbered : Task = record {
      class = benchmark_task;
      tid = some (Int.format (pos i));
      attributes = [];
    } in
    (numbered ∷ tasks, rw e refl, ap (λ l. some (Int.format (pos i)) ∷ l) h)

-- Whatever the queue holds, the generator puts exactly `num_tasks` tasks there, without an exception,
-- whose ids are the numbers from 0 on in order.
pub start-numbers :
    (num_tasks : ℕ) (q : SharedQueue Task)
    → (filled : SharedQueue Task) × (start num_tasks q ≡ ok filled)
      × (tids filled.items ≡ numbers num_tasks 0)
unfolding start create_task_list
start-numbers num_tasks q =
    let (tasks, e, h) = create_tasks-numbers num_tasks 0 in
    (record { items = tasks }, rw e (refill_lem tasks q), h)
