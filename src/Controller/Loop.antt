-- ===== src/Controller/Loop.antt =====
-- cyclone-controller.py: one round of the controller's loop with its exception handler, and the
-- shutdown of the workers.
use cyclone_distributed_task.Prelude.{
  ℕ, suc, Bool, true, false, ◌&&◌, ◌||◌, Option, none, some, List, [], ◌∷◌, ◌++◌, Text, text_eq,
  ◌==◌, ℤ, nat_beq, if◌then◌else◌,
}
use cyclone_distributed_task.Py.Result.{Result, ok, err}
use cyclone_distributed_task.Py.Exec.{Exec, pure, lift, gets, modify, ◌>>=◌, ◌>>◌}
use cyclone_distributed_task.Ctrl.SharedQueue
use cyclone_distributed_task.Ctrl.SharedQueue.{SharedQueue}
use cyclone_distributed_task.Task.Object.{Task, TaskClass}
use cyclone_distributed_task.Task.Classes.{poison_pill}
use cyclone_distributed_task.Msg.Message.{
  Message, to_string, type_of, new_task_request, new_task_finished, new_heartbeat, duration,
  task_ass, ack, wait_cmd, exit_cmd,
}
use cyclone_distributed_task.Msg.TaskAssign.{to_task}
use cyclone_distributed_task.Msg.Factory.{create}
use cyclone_distributed_task.Controller.Worker.{View, is_ready}

-- What the loop does to the outside, in order
pub data Action : Type 0 where
  send_string : Text → Action
  sleep : ℤ → Action
  retry_sleep disconnect reconnect : Action

pub record ControllerState : Type 0 where
  pub run_condition : Bool
  pub request_retry_count : ℕ
  pub task_queue : SharedQueue Task
  pub result_queue : SharedQueue Text
  pub actions : List Action

pub record ControllerConfig : Type 0 where
  pub fqdn : Text
  pub max_num_request_retries : ℕ
  pub import_class : Text → Text → Result TaskClass

-- What one round reads from outside: the workers, the results that come in the second of waiting,
-- and what the two calls of `recv_string` return
pub record ControllerRound : Type 0 where
  pub workers : View
  pub late_results : List Text
  pub response : Option Text
  pub second_response : Option Text

abbrev pub Handler : Type 0 → Type 0
Handler = Exec ControllerState

unfoldable pub act : Action → Handler (Unit {0})
act a = modify (λ s. record s { actions = s.actions ++ a ∷ [] })

unfoldable pub stop : Handler (Unit {0})
stop = modify (λ s. record s { run_condition = false })

unfoldable pub found_ready_worker : View → Bool
found_ready_worker [] = false
found_ready_worker (w ∷ ws) = w.is_alive && is_ready w.state || found_ready_worker ws

unfoldable pub found_active_worker : View → Bool
found_active_worker [] = false
found_active_worker (w ∷ ws) = w.is_alive || found_active_worker ws

-- `TaskFinished(comm_handler.fqdn, task_id)`; an empty id is dropped.
finished_message : Text → Option Text → Handler (Option Message)
finished_message fqdn none = pure none
finished_message fqdn (some []) = pure none
finished_message fqdn (some (ch ∷ tid)) = do
  m ← lift (new_task_finished fqdn (ch ∷ tid))
  pure (some m)

-- The first choice: a result
unfoldable pub next_result : ControllerConfig → Handler (Option Message)
unfolding finished_message
next_result c s =
    let (task_id, q) = SharedQueue.pop_nowait s.result_queue in
    finished_message c.fqdn task_id (record s { result_queue = q })

-- All workers are busy: a heartbeat, if there is no result after a second
unfoldable pub wait_for_result : ControllerConfig → ControllerRound → Handler (Option Message)
wait_for_result c r = do
  modify
      (λ s. record s { result_queue = record { items = s.result_queue.items ++ r.late_results } })
  empty ← gets (λ s. SharedQueue.is_empty s.result_queue)
  if empty then (do m ← lift (new_heartbeat c.fqdn); pure (some m)) else pure none

unfoldable pub ask_or_wait : ControllerConfig → ControllerRound → Handler (Option Message)
unfolding wait_for_result
ask_or_wait c r =
    if found_ready_worker r.workers
    then (do m ← lift (new_task_request c.fqdn); pure (some m))
    else if found_active_worker r.workers
    then wait_for_result c r
    else (do stop; pure none)

-- `send_msg`
unfoldable pub choose : ControllerConfig → ControllerRound → Handler (Option Message)
choose c r = do
  result ← next_result c
  elim result [ none ↦ ask_or_wait c r | some m ↦ pure (some m) ]

unfoldable pub push_task : Task → Handler (Unit {0})
push_task task = do
  q ← gets (λ s. s.task_queue)
  pushed ← lift (SharedQueue.push (λ t. true) task q)
  modify (λ s. record s { task_queue = pushed })

-- A response of the master
unfoldable pub process : ControllerConfig → Message → Handler (Unit {0})
process c m =
    if task_ass == type_of m
    then (do task ← lift (to_task c.import_class m); push_task task)
    else if ack == type_of m
    then pure tt
    else if wait_cmd == type_of m
    then (do d ← lift (duration m); act (sleep d))
    else if exit_cmd == type_of m
    then stop
    else pure tt

unfoldable pub respond : ControllerConfig → Text → Handler (Unit {0})
respond c in_raw_data = do
  m ← lift (create in_raw_data)
  process c m
  modify (λ s. record s { request_retry_count = 0 })

-- The second call of `recv_string`
unfoldable pub retry : ControllerConfig → Option Text → Handler (Unit {0})
retry c (some in_raw_data) = respond c in_raw_data
retry c none = do
  act reconnect
  modify (λ s. record s { request_retry_count = suc s.request_retry_count })

-- No response in time
unfoldable pub give_up_or_retry : ControllerConfig → Option Text → Handler (Unit {0})
give_up_or_retry c second = do
  count ← gets (λ s. s.request_retry_count)
  if nat_beq count c.max_num_request_retries then (do act disconnect; stop) else pure tt
  act retry_sleep
  retry c second

unfoldable pub exchange : ControllerConfig → ControllerRound → Option Message → Handler (Unit {0})
exchange c r none = pure tt
exchange c r (some m) = do
  act (send_string (to_string m))
  elim r.response [ none ↦ give_up_or_retry c r.second_response | some text ↦ respond c text ]

unfoldable pub try_round : ControllerConfig → ControllerRound → Handler (Unit {0})
try_round c r = do m ← choose c r; exchange c r m

-- `except Exception`
unfoldable pub caught : Result (Unit {0}) × ControllerState → ControllerState
caught (ok a, s) = s
caught (err e, s) = record s { run_condition = false }

unfoldable pub round : ControllerConfig → ControllerRound → ControllerState → ControllerState
round c r s = caught (try_round c r s)

unfoldable pub run : ControllerConfig → List ControllerRound → ControllerState → ControllerState
run c [] s = s
run c (r ∷ rs) s = let rest = run c rs (round c r s) in if s.run_condition then rest else s

-- The shutdown: in each round a poison pill for each worker that is alive, until none is.
pills : View → List Task
pills [] = []
pills (w ∷ ws) = if w.is_alive then poison_pill ∷ pills ws else pills ws

unfoldable pub shutdown : List View → SharedQueue Task → Bool × SharedQueue Task
unfolding pills
shutdown [] q = (false, q)
shutdown (view ∷ views) q =
    let rest = shutdown views (record { items = q.items ++ pills view }) in
    if found_active_worker view then rest else (true, q)
