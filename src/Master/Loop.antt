-- ===== src/Master/Loop.antt =====
-- One round of the master's loop with its exception handler, and the loop between the steps of the
-- other processes.
use cyclone_distributed_task.Prelude.{
  ℕ, suc, false, Option, none, some, List, [], ◌∷◌, Text, nat_beq, text_eq, if◌then◌else◌, ◌++◌,
}
use cyclone_distributed_task.Py.Result.{Error, Result, ok, err}
use cyclone_distributed_task.Py.Exec.{raise, pure, lift, modify, ◌>>=◌, ◌>>◌}
use cyclone_distributed_task.Py.Dict.{put}
use cyclone_distributed_task.Ctrl.SharedQueue
use cyclone_distributed_task.Task.Object.{Task}
use cyclone_distributed_task.Msg.Message.{Message, to_string, sender}
use cyclone_distributed_task.Msg.Factory.{create}
use cyclone_distributed_task.Master.State.{Config, MasterState, Round}
use cyclone_distributed_task.Master.Handlers.{Handler, handle_message, handle_exit, handle_timeout}

unfoldable pub answer : Config → Round → Message → Text → Handler Message
answer c r m controller s =
    (if s.task_distribution then handle_message c r m controller else handle_exit controller) s

-- `controller_heartbeat_dict[recv_msg.sender] = int(time.time())`
unfoldable pub note_heartbeat : Round → Text → Handler (Unit {0})
note_heartbeat r controller = modify (λ s. record s {
  controller_heartbeat_dict = put controller r.heartbeat_time s.controller_heartbeat_dict;
})

-- A message has come: its sender has been heard of now.
unfoldable pub receive : Config → Round → Text → Handler Message
receive c r recv_data = do
  m ← lift (create recv_data)
  controller ← lift (sender m)
  note_heartbeat r controller
  answer c r m controller

-- The `try` block: the text sent, if any
unfoldable pub attempt : Config → Round → Option Text → Handler (Option Text)
attempt c r none = do handle_timeout c r; pure none
attempt c r (some recv_data) = do m ← receive c r recv_data; pure (some (to_string m))

unfoldable pub try_round : Config → Round → Handler (Option Text)
unfolding attempt
try_round c r = attempt c r r.recv_data

abbrev pub max_error_count : ℕ
max_error_count = 100

-- `except Exception`
unfoldable pub on_exception : MasterState → MasterState
on_exception s = record s {
  error_count = suc s.error_count;
  task_distribution = false;
  run_flag = if nat_beq (suc s.error_count) max_error_count then false else s.run_flag;
}

unfoldable pub caught : Result (Option Text) → MasterState → Option Text × MasterState
caught (ok reply) s = (reply, s)
caught (err e) s = (none, on_exception s)

unfoldable pub round : Config → Round → MasterState → Option Text × MasterState
round c r s = let (result, after) = try_round c r s in caught result after

-- The `try` block where `send_string` raises: while tasks are distributed the reply is the last thing, and in the
-- shutdown it goes before the controller is dropped.
unfoldable pub answer_unsent : Config → Round → Error → Message → Text → Handler (Option Text)
answer_unsent c r e m controller s =
    (if s.task_distribution then (do reply ← handle_message c r m controller; raise e) else raise e)
      s

unfoldable pub receive_unsent : Config → Round → Error → Text → Handler (Option Text)
receive_unsent c r e recv_data = do
  m ← lift (create recv_data)
  controller ← lift (sender m)
  note_heartbeat r controller
  answer_unsent c r e m controller

unfoldable pub attempt_unsent : Config → Round → Error → Option Text → Handler (Option Text)
attempt_unsent c r e none = do handle_timeout c r; pure none
attempt_unsent c r e (some recv_data) = receive_unsent c r e recv_data

-- What changes the master's variables: a round, a round in which `recv_string` or `send_string` raises, a signal that
-- stops the distribution, a task that the generator pushes, its clearing and refilling of the task queue, and a result
-- that it pops.
pub data Event : Type 0 where
  serve : Round → Event
  recv_fails : Error → Event
  send_fails : Round → Error → Event
  stop_task_distribution : Event
  generated : Task → Event
  refilled : List Task → Event
  collected : Event

unfoldable pub step : Config → Event → MasterState → MasterState
step c (serve r) s = if s.run_flag then (round c r s).1 else s
step c (recv_fails e) s = if s.run_flag then (caught (err e) s).1 else s
step c (send_fails r e) s =
    let (result, after) = attempt_unsent c r e r.recv_data s in
    if s.run_flag then (caught result after).1 else s
step c stop_task_distribution s = record s { task_distribution = false }
step c (generated task) s = record s {
  task_queue = record { items = s.task_queue.items ++ task ∷ [] };
}
step c (refilled tasks) s = record s { task_queue = record { items = tasks } }
step c collected s = record s { result_queue = (SharedQueue.pop_nowait s.result_queue).1 }

unfoldable pub run : Config → List Event → MasterState → MasterState
run c [] s = s
run c (e ∷ es) s = run c es (step c e s)
