-- ===== src/Master/Handlers.antt =====
-- The branches of the master's loop, one function for each kind of message, and the branch for a
-- poll timeout. A handler returns the message to send.
use cyclone_distributed_task.Prelude.{
  ℕ, ◌+◌, ◌*◌, ◌==◌, text_eq, option_eq, Bool, true, false, not, ◌||◌, ◌&&◌, Option, none, some,
  Text, pos, leb, ltb, length, is_nil, if◌then◌else◌,
}
use cyclone_distributed_task.Py.Result.{ok, err, runtime_error, Result}
use cyclone_distributed_task.Py.Exec.{Exec, pure, raise, lift, gets, modify, ◌>>=◌, ◌>>◌}
use cyclone_distributed_task.Py.Dict.{Dict, get, put, remove, keys, for_keys}
use cyclone_distributed_task.Py.Int
use cyclone_distributed_task.Ctrl.SharedQueue
use cyclone_distributed_task.Ctrl.TaskStatus.{
  TaskStatusItem, assigned, finished, is_assigned, is_finished,
}
use cyclone_distributed_task.Task.Object.{Task}
use cyclone_distributed_task.Msg.Message.{
  Message, new_wait_command, new_acknowledge, new_exit_command, type_of, tid, task_req, task_fin,
  heartbeat_type,
}
use cyclone_distributed_task.Msg.TaskAssign.{from_task}
use cyclone_distributed_task.Master.State.{Config, MasterState, Round}

abbrev pub Handler : Type 0 → Type 0
Handler = Exec MasterState

-- `task_queue.pop_nowait()`
pop_task : Handler (Option Task)
pop_task s =
    let (task, q) = SharedQueue.pop_nowait s.task_queue in (ok task, record s { task_queue = q })

-- An empty queue and a dead generator end the distribution.
on_empty_queue : Bool → Handler (Option Task)
on_empty_queue true s = (ok none, s)
on_empty_queue false s =
    (ok none, record s { task_distribution = false; controller_wait_duration = 0 })

unfoldable pub take_task : Round → Handler (Option Task)
unfolding pop_task on_empty_queue
take_task r s =
    if r.is_locked
    then (if SharedQueue.is_empty s.task_queue
        then on_empty_queue r.generator_alive s
        else pop_task s)
    else (ok none, s)

-- `WaitCommand(controller_wait_duration)`
unfoldable pub wait : Handler Message
wait s = (new_wait_command (Int.format (pos s.controller_wait_duration)), s)

unfoldable pub assign : Round → Text → Task → Handler Message
assign r controller task = do
  modify (λ s. record s {
    task_status_dict =
        put task.tid
          (record {
            tid = task.tid;
            state = assigned;
            controller = controller;
            timestamp = r.status_time;
          })
          s.task_status_dict;
  })
  lift (from_task task)

-- A task that has a status already
unfoldable pub assign_again : Config → Round → Text → Task → TaskStatusItem → Handler Message
unfolding wait assign
assign_again c r controller task item =
    let task_resend_threshold = item.timestamp + c.task_resend_timeout in
    if is_finished item.state || leb task_resend_threshold r.last_exec_timestamp
    then assign r controller task
    else if is_assigned item.state && ltb r.last_exec_timestamp task_resend_threshold
    then wait
    else raise runtime_error

unfoldable pub offer : Config → Round → Text → Option Task → Handler Message
unfolding assign_again
offer c r controller none s = wait s
offer c r controller (some task) s = elim (get task.tid s.task_status_dict) [
  | none ↦ assign r controller task s
  | some item ↦ assign_again c r controller task item s
]

-- `TASK_REQUEST`
unfoldable pub handle_request : Config → Round → Text → Handler Message
handle_request c r controller = do task ← take_task r; offer c r controller task

-- `result_queue.push(tid)`
unfoldable pub push_result : Text → Handler (Unit {0})
push_result t s = elim (SharedQueue.push (λ x. not (is_nil x)) t s.result_queue) [
  | ok q ↦ (ok tt, record s { result_queue = q })
  | err e ↦ (err e, s)
]

unfoldable pub finish : Round → Text → Text → TaskStatusItem → Handler (Unit {0})
finish r controller t item =
    if controller == item.controller
    then (do
      modify (λ s. record s {
        task_status_dict =
            put (some t) (record item { state = finished; timestamp = r.status_time })
              s.task_status_dict;
      })
      push_result t)
    else pure tt

unfoldable pub report : Round → Text → Text → Option TaskStatusItem → Handler (Unit {0})
report r controller t none = raise runtime_error
report r controller t (some item) = finish r controller t item

-- `TASK_FINISHED`
unfoldable pub handle_finished : Round → Text → Text → Handler Message
handle_finished r controller t = do
  found ← gets (λ s. get (some t) s.task_status_dict)
  report r controller t found
  lift new_acknowledge

-- The branches of a message while tasks are distributed
unfoldable pub handle_message : Config → Round → Message → Text → Handler Message
handle_message c r m controller =
    if type_of m == task_req
    then handle_request c r controller
    else if type_of m == task_fin
    then (do t ← lift (tid m); handle_finished r controller t)
    else if type_of m == heartbeat_type
    then lift new_acknowledge
    else raise runtime_error

-- `if check_all_controller_down(len(controller_heartbeat_dict)): run_flag = False`
unfoldable pub stop_if_all_down : Handler (Unit {0})
stop_if_all_down =
    modify (λ s. record s {
      run_flag = if is_nil s.controller_heartbeat_dict then false else s.run_flag;
    })

-- `controller_heartbeat_dict.pop(recv_msg.sender, None)`
unfoldable pub drop_controller : Text → Handler (Unit {0})
drop_controller controller =
    modify
      (λ s. record s { controller_heartbeat_dict = remove controller s.controller_heartbeat_dict })

-- A message after the end of the distribution; the command is sent before the sender is dropped.
unfoldable pub handle_exit : Text → Handler Message
handle_exit controller = do
  m ← lift new_exit_command
  drop_controller controller
  stop_if_all_down
  pure m

-- The body of the loop over the controllers in the branch for a poll timeout
unfoldable pub drop_expired : Config → Round → Text → Dict Text ℕ → Dict Text ℕ
drop_expired c r name d = elim (get name d) [
  | none ↦ d
  | some seen ↦
      if leb (seen * 1000 + c.controller_timeout_ms) (r.last_exec_timestamp * 1000)
      then remove name d
      else d
]

unfoldable pub after_loop : Result (Unit {0}) × Dict Text ℕ → Handler (Unit {0})
after_loop (ok _, d) s = stop_if_all_down (record s { controller_heartbeat_dict = d })
after_loop (err e, d) s = (err e, record s { controller_heartbeat_dict = d })

unfoldable pub handle_timeout : Config → Round → Handler (Unit {0})
handle_timeout c r s =
    let d = s.controller_heartbeat_dict in
    let loop = for_keys (drop_expired c r) (length d) (keys d) d in
    (if s.task_distribution then pure tt else after_loop loop) s
