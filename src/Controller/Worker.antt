-- ===== src/Controller/Worker.antt =====
-- worker.py, and the functions of cyclone-controller.py that make and start the workers. The worker
-- state table stands in shared memory: the state and the timestamp are C integers, and the id of a
-- task is a C array of 64 bytes.
use cyclone_distributed_task.Prelude.{
  ℕ, suc, zero, Bool, true, false, not, ◌&&◌, ◌||◌, ◌+◌, ◌*◌, ◌%◌, ◌^◌, Option, none, some, List,
  [], ◌∷◌, ◌++◌, Text, text_eq, codes, pos, length, ltb, nat_beq, is_nil, if◌then◌else◌,
}
use cyclone_distributed_task.Py.Result.{
  Error, Result, ok, err, runtime_error, value_error, attribute_error,
}
use cyclone_distributed_task.Py.Dict.{Dict, put}
use cyclone_distributed_task.Py.Exec.{pure, Exec, pure, lift, gets, modify, ◌>>=◌, ◌>>◌}
use cyclone_distributed_task.Py.Int
use cyclone_distributed_task.Ctrl.SharedQueue
use cyclone_distributed_task.Ctrl.SharedQueue.{SharedQueue}
use cyclone_distributed_task.Task.Object.{Task}

pub data WorkerState : Type 0 where
  not_ready ready executing : WorkerState

abbrev pub is_ready : WorkerState → Bool
is_ready ready = true
is_ready _ = false

-- `WorkerState.to_string`
unfoldable pub state_text : WorkerState → Text
state_text not_ready = codes "NOT_READY"
state_text ready = codes "READY"
state_text executing = codes "EXECUTING"

pub record WorkerStateTableItem : Type 0 where
  pub state : WorkerState
  pub tid : Text
  pub timestamp : ℕ

unfoldable pub new_item : WorkerStateTableItem
new_item = record { state = not_ready; tid = []; timestamp = 0 }

-- The UTF-8 bytes of a code point
abbrev utf8_size : ℕ → ℕ
utf8_size c = if ltb c 128 then 1 else if ltb c 2048 then 2 else if ltb c 65536 then 3 else 4

unfoldable pub byte_length : Text → ℕ
byte_length [] = 0
byte_length (c ∷ s) = utf8_size c + byte_length s

-- `self._tid.value = task_name.encode()`: ctypes refuses more bytes than the array has.
unfoldable pub set_tid : Text → WorkerStateTableItem → Result WorkerStateTableItem
unfolding byte_length
set_tid task_name item =
    if ltb 64 (byte_length task_name) then err value_error else ok (record item { tid = task_name })

-- `create_worker_ids`
unfoldable pub create_worker_ids_from : ℕ → ℕ → List Text
create_worker_ids_from zero i = []
create_worker_ids_from (suc n) i =
    (codes "WORKER_" ++ Int.format (pos i)) ∷ create_worker_ids_from n (suc i)

abbrev pub create_worker_ids : ℕ → List Text
create_worker_ids worker_count = create_worker_ids_from worker_count 0

fill_table : List Text → Dict Text WorkerStateTableItem → Dict Text WorkerStateTableItem
fill_table [] table = table
fill_table (worker_id ∷ rest) table = fill_table rest (put worker_id new_item table)

-- `create_worker_state_table`
unfoldable pub create_worker_state_table : List Text → Result (Dict Text WorkerStateTableItem)
unfolding fill_table
create_worker_state_table worker_ids =
    let table = fill_table worker_ids [] in
    if nat_beq (length table) (length worker_ids) then ok table else err runtime_error

-- What a look at a worker shows: whether its process is alive, and its state in the table
pub record WorkerView : Type 0 where
  pub is_alive : Bool
  pub state : WorkerState

abbrev pub View : Type 0
View = List WorkerView

unfoldable pub all_ready : View → Bool
all_ready [] = true
all_ready (w ∷ ws) =
    let rest = all_ready ws in if w.is_alive && is_ready w.state then rest else false

-- `start_worker`, on the sizes of the two dicts and what the retries see: the answer and the seconds
-- that were waited.
try_start : ℕ → ℕ → List View → Bool × ℕ
try_start zero retry_count views = (false, 0)
try_start (suc left) retry_count [] = (false, 0)
try_start (suc left) retry_count (view ∷ views) =
    let (started, waited) = try_start left (suc retry_count) views in
    if all_ready view then (true, 0) else (started, retry_count * retry_count + waited)

unfoldable pub start_worker : ℕ → ℕ → List View → Result (Bool × ℕ)
unfolding try_start
start_worker handles items views =
    if nat_beq handles 0 || nat_beq items 0 || not (nat_beq handles items)
    then err runtime_error
    else ok (try_start 3 1 views)

-- The variables of a worker: its item of the table, the two queues, and its flag; with the tasks whose `execute` it has
-- called, in order
pub record WorkerProcess : Type 0 where
  pub item : WorkerStateTableItem
  pub task_queue : SharedQueue Task
  pub result_queue : SharedQueue (Option Text)
  pub run_flag : Bool
  pub executed : List Task

abbrev pub Handler : Type 0 → Type 0
Handler = Exec WorkerProcess

-- How a call of `execute` ends: it returns, it raises an `Exception`, it ends the process with an exit code, or it does
-- not end.
pub data Execution : Type 0 where
  returns : Execution
  raises : Error → Execution
  exits : ℕ → Execution
  hangs : Execution

-- What one round reads from outside: the clock twice, whether SIGUSR1 came, and what `execute` of a task does
pub record WorkerRound : Type 0 where
  pub begin_time : ℕ
  pub end_time : ℕ
  pub is_shut_down : Bool
  pub execute : Task → Execution

-- a C unsigned integer
abbrev pub to_uint : ℕ → ℕ
to_uint n = n % 2 ^ 32

-- `self.task_queue.pop()`: `none` where the worker would still be blocked
pop_task : Handler (Option Task)
pop_task s = elim (SharedQueue.pop s.task_queue) [
  | none ↦ (ok none, s)
  | some (task, q) ↦ (ok (some task), record s { task_queue = q })
]

abbrev tid_or_error : Option Text → Result Text
tid_or_error none = err attribute_error
tid_or_error (some tid) = ok tid

-- The state, then the id, then the time
unfoldable pub enter : WorkerState → Option Text → ℕ → Handler (Unit {0})
enter state tid time = do
  modify (λ s. record s { item = record s.item { state = state } })
  name ← lift (tid_or_error tid)
  old ← gets (λ s. s.item)
  item ← lift (set_tid name old)
  modify (λ s. record s { item = record item { timestamp = to_uint time } })

-- `self.result_queue.push(task.tid)`
abbrev is_text : Option Text → Bool
is_text none = false
is_text (some tid) = not (is_nil tid)

push_result : Option Text → Handler (Unit {0})
push_result tid = do
  q ← gets (λ s. s.result_queue)
  pushed ← lift (SharedQueue.push is_text tid q)
  modify (λ s. record s { result_queue = pushed })

-- `task.execute()`
unfoldable pub execute : WorkerRound → Task → Handler Execution
execute r task s = (ok (r.execute task), record s { executed = s.executed ++ task ∷ [] })

-- What follows a call of `execute` that is over
unfoldable pub conclude : WorkerRound → Task → Handler (Option Execution)
unfolding push_result
conclude r task = do push_result task.tid; enter ready (some []) r.end_time; pure none

-- The `try` around the call: an exception is logged and no more. `some` is a call that the worker does not survive.
unfoldable pub after_execute : WorkerRound → Task → Execution → Handler (Option Execution)
after_execute r task returns = conclude r task
after_execute r task (raises e) = conclude r task
after_execute r task (exits n) = pure (some (exits n))
after_execute r task hangs = pure (some hangs)

-- The body of the loop behind `pop`
unfoldable pub work : WorkerRound → Option Task → Handler (Option Execution)
work r none = pure none
work r (some task) = do
  enter executing task.tid r.begin_time
  execution ← execute r task
  after_execute r task execution

unfoldable pub worker_round : WorkerRound → Handler (Option Execution)
unfolding pop_task
worker_round r = do
  modify (λ s. record s { run_flag = if r.is_shut_down then false else s.run_flag })
  task ← pop_task
  work r task

-- The exit code of a process behind a call of `execute` that it does not survive, if it ends
abbrev pub code_of : Execution → Option ℕ
code_of (exits n) = some n
code_of _ = none

-- `run`: the loop over the rounds, with the exit code where it ends. With an empty queue the worker
-- stays blocked, and behind a call that does not end as well.
unfoldable pub run_rounds : List WorkerRound → WorkerProcess → Option ℕ × WorkerProcess
run_rounds [] s = (none, s)
run_rounds (r ∷ rs) s =
    let (result, after) = worker_round r s in
    let rest = run_rounds rs after in
    if s.run_flag
    then (if SharedQueue.is_empty s.task_queue then (none, s) else elim result [
      | ok lost ↦ elim lost [ none ↦ rest | some execution ↦ (code_of execution, after) ]
      | err e ↦ (some 1, after)
    ])
    else (some 0, s)
