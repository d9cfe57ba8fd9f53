-- ===== src/Master/Counting/Handlers.antt =====
-- The `try` block of the loop of cyclone-master.py counts no exceptions; its handler does.
use cyclone_distributed_task.Prelude.{
  ◌==◌, text_eq, option_eq, ◌≡◌, refl, Option, none, some, [], ◌∷◌, Text, arith, Bool-cases, ℕ, inl,
  inr, length,
}
use cyclone_distributed_task.Py.Result.{Result, Error, ok, err}
use cyclone_distributed_task.Py.Exec.{raise, pure, lift, ◌>>=◌}
use cyclone_distributed_task.Py.Dict.{put, for_keys, get, Dict, keys}
use cyclone_distributed_task.Ctrl.TaskStatus.{finished, TaskStatusItem}
use cyclone_distributed_task.Ctrl.SharedQueue.{push, pop_nowait}
use cyclone_distributed_task.Task.Object.{Task}
use cyclone_distributed_task.Msg.Message.{Message, new_acknowledge}
use cyclone_distributed_task.Master.State.{Config, MasterState, Round}
use cyclone_distributed_task.Master.Handlers.{
  take_task, assign, wait, assign_again, offer, handle_request, push_result, finish, report,
  handle_finished, handle_message, after_loop, drop_controller, handle_exit, handle_timeout,
  stop_if_all_down, drop_expired,
}
use cyclone_distributed_task.Master.Assignment.{offer-new, offer-known}
use cyclone_distributed_task.Master.Loop.{
  answer_unsent, attempt, attempt_unsent, note_heartbeat, receive_unsent, answer, receive,
}
use cyclone_distributed_task.Master.Counting.Rules.{
  LeavesCount, LeavesCount-bind, LeavesCount-then, LeavesCount-if, LeavesCount-lift,
  LeavesCount-pure, LeavesCount-raise, count_rules,
}

take_task-LeavesCount : (r : Round) → LeavesCount (take_task r)
unfolding take_task pop_nowait
take_task-LeavesCount r = record { at = λ s. ground arith }

assign-LeavesCount :
    (r : Round) (controller : Text) (task : Task) → LeavesCount (assign r controller task)
unfolding assign
assign-LeavesCount r controller task = record { at = λ s. refl }

wait-LeavesCount : LeavesCount wait
unfolding wait
wait-LeavesCount = record { at = λ s. refl }

assign_again-LeavesCount :
    (c : Config) (r : Round) (controller : Text) (task : Task) (item : TaskStatusItem)
    → LeavesCount (assign_again c r controller task item)
unfolding assign_again
assign_again-LeavesCount c r controller task item =
    search (count_rules, assign-LeavesCount, wait-LeavesCount)

offer-LeavesCount :
    (c : Config) (r : Round) (controller : Text) (o : Option Task)
    → LeavesCount (offer c r controller o)
offer-LeavesCount c r controller none = record { at = λ s. unfold offer wait in refl }
offer-LeavesCount c r controller (some task) = record {
  at = λ s. go s (get task.tid s.task_status_dict) refl;
}
  where
    go :
        (s : MasterState) (o : Option TaskStatusItem)
        → get task.tid s.task_status_dict ≡ o
        → (offer c r controller (some task) s).1.error_count ≡ s.error_count
    go s none e =
        rw (offer-new c r controller task s e) ((assign-LeavesCount r controller task).at s)
    go s (some item) e =
        rw (offer-known c r controller task s item e)
          ((assign_again-LeavesCount c r controller task item).at s)

handle_request-LeavesCount :
    (c : Config) (r : Round) (controller : Text) → LeavesCount (handle_request c r controller)
unfolding handle_request
handle_request-LeavesCount c r controller =
    search (count_rules, take_task-LeavesCount, offer-LeavesCount)

push_result-LeavesCount : (t : Text) → LeavesCount (push_result t)
unfolding push_result push
push_result-LeavesCount [] = record { at = λ s. refl }
push_result-LeavesCount (x ∷ t) = record { at = λ s. refl }

finish-LeavesCount :
    (r : Round) (controller t : Text) (item : TaskStatusItem)
    → LeavesCount (finish r controller t item)
unfolding finish
finish-LeavesCount r controller t item = record {
  at = λ s. elim (Bool-cases (controller == item.controller)) [
    | inl y ↦ rw y ((push_result-LeavesCount t).at (marked s))
    | inr n ↦ rw n refl
  ];
}
  where
    marked : MasterState → MasterState
    marked s = record s {
      task_status_dict =
          put (some t) (record item { state = finished; timestamp = r.status_time })
            s.task_status_dict;
    }

report-LeavesCount :
    (r : Round) (controller t : Text) (o : Option TaskStatusItem)
    → LeavesCount (report r controller t o)
unfolding report
report-LeavesCount r controller t none = LeavesCount-raise _
report-LeavesCount r controller t (some item) = finish-LeavesCount r controller t item

handle_finished-LeavesCount :
    (r : Round) (controller t : Text) → LeavesCount (handle_finished r controller t)
unfolding handle_finished
handle_finished-LeavesCount r controller t = record {
  at = λ s.
      (LeavesCount-then (report r controller t (get (some t) s.task_status_dict))
          (lift new_acknowledge)
          (report-LeavesCount r controller t (get (some t) s.task_status_dict))
          (LeavesCount-lift new_acknowledge)).at
        s;
}

handle_message-LeavesCount :
    (c : Config) (r : Round) (m : Message) (controller : Text)
    → LeavesCount (handle_message c r m controller)
unfolding handle_message
handle_message-LeavesCount c r m controller =
    search (count_rules, handle_request-LeavesCount, handle_finished-LeavesCount)

stop_if_all_down-LeavesCount : LeavesCount stop_if_all_down
unfolding stop_if_all_down
stop_if_all_down-LeavesCount = record { at = λ s. refl }

drop_controller-LeavesCount : (controller : Text) → LeavesCount (drop_controller controller)
unfolding drop_controller
drop_controller-LeavesCount controller = record { at = λ s. refl }

handle_exit-LeavesCount : (controller : Text) → LeavesCount (handle_exit controller)
unfolding handle_exit
handle_exit-LeavesCount controller =
    search (count_rules, stop_if_all_down-LeavesCount, drop_controller-LeavesCount)

after_loop-LeavesCount : (x : Result (Unit {0}) × Dict Text ℕ) → LeavesCount (after_loop x)
unfolding after_loop
after_loop-LeavesCount (ok _, d) = record {
  at = λ s. stop_if_all_down-LeavesCount.at (record s { controller_heartbeat_dict = d });
}
after_loop-LeavesCount (err e, d) = record { at = λ s. refl }

handle_timeout-LeavesCount : (c : Config) (r : Round) → LeavesCount (handle_timeout c r)
unfolding handle_timeout
handle_timeout-LeavesCount c r = record {
  at = λ s.
      let d = s.controller_heartbeat_dict in
      let loop = for_keys (drop_expired c r) (length d) (keys d) d in
      (LeavesCount-if s.task_distribution (pure tt) (after_loop loop) (LeavesCount-pure tt)
          (after_loop-LeavesCount loop)).at
        s;
}

answer-LeavesCount :
    (c : Config) (r : Round) (m : Message) (controller : Text)
    → LeavesCount (answer c r m controller)
unfolding answer
answer-LeavesCount c r m controller = record {
  at = λ s.
      (LeavesCount-if s.task_distribution (handle_message c r m controller) (handle_exit controller)
          (handle_message-LeavesCount c r m controller) (handle_exit-LeavesCount controller)).at
        s;
}

note_heartbeat-LeavesCount :
    (r : Round) (controller : Text) → LeavesCount (note_heartbeat r controller)
unfolding note_heartbeat
note_heartbeat-LeavesCount r controller = record { at = λ s. refl }

receive-LeavesCount : (c : Config) (r : Round) (message : Text) → LeavesCount (receive c r message)
unfolding receive
receive-LeavesCount c r message =
    search (count_rules, answer-LeavesCount, note_heartbeat-LeavesCount)

pub attempt-LeavesCount :
    (c : Config) (r : Round) (message : Option Text) → LeavesCount (attempt c r message)
unfolding attempt
attempt-LeavesCount c r none = search (count_rules, handle_timeout-LeavesCount)
attempt-LeavesCount c r (some m) = search (count_rules, receive-LeavesCount)

answer_unsent-LeavesCount :
    (c : Config) (r : Round) (e : Error) (m : Message) (controller : Text)
    → LeavesCount (answer_unsent c r e m controller)
unfolding answer_unsent
answer_unsent-LeavesCount c r e m controller = record {
  at = λ s.
      (LeavesCount-if s.task_distribution (do reply ← handle_message c r m controller; raise e)
          (raise e)
          (LeavesCount-bind (handle_message c r m controller) (λ _. raise e)
            (handle_message-LeavesCount c r m controller) (λ _. LeavesCount-raise e))
          (LeavesCount-raise e)).at
        s;
}

receive_unsent-LeavesCount :
    (c : Config) (r : Round) (e : Error) (message : Text)
    → LeavesCount (receive_unsent c r e message)
unfolding receive_unsent
receive_unsent-LeavesCount c r e message =
    search (count_rules, answer_unsent-LeavesCount, note_heartbeat-LeavesCount)

pub attempt_unsent-LeavesCount :
    (c : Config) (r : Round) (e : Error) (message : Option Text)
    → LeavesCount (attempt_unsent c r e message)
unfolding attempt_unsent
attempt_unsent-LeavesCount c r e none = search (count_rules, handle_timeout-LeavesCount)
attempt_unsent-LeavesCount c r e (some m) = receive_unsent-LeavesCount c r e m
