-- ===== src/Master/Finish.antt =====
-- What the master does with the report that a task is finished, after it has assigned the task.
use cyclone_distributed_task.Prelude.{
  ◌≡◌, refl, true, false, some, List, [], ◌∷◌, ◌++◌, Text, text_eq, option_eq, ◌==◌, eq_self,
  is_nil, ap, sym, ◌∙◌,
}
use cyclone_distributed_task.Py.Result.{ok}
use cyclone_distributed_task.Py.Dict.{get, put}
use cyclone_distributed_task.Ctrl.SharedQueue.{push}
use cyclone_distributed_task.Ctrl.TaskStatus.{TaskStatusItem, finished}
use cyclone_distributed_task.Task.Object.{Task}
use cyclone_distributed_task.Msg.Message.{new_acknowledge}
use cyclone_distributed_task.Master.State.{Config, MasterState, Round}
use cyclone_distributed_task.Master.Handlers.{
  handle_request, handle_finished, report, finish, push_result,
}
use cyclone_distributed_task.Master.Assignment.{
  IsOutstanding, assigned_to, with_queue, request-Assigns,
}

-- The master with this task marked as finished now, and its id at the end of the results
abbrev pub with_finished : Round → Text → TaskStatusItem → MasterState → MasterState
with_finished r t item s = record s {
  task_status_dict =
      put (some t) (record item { state = finished; timestamp = r.status_time }) s.task_status_dict;
  result_queue = record { items = s.result_queue.items ++ t ∷ [] };
}

push_result-set :
    (t : Text) (s : MasterState)
    → is_nil t ≡ false
    → push_result t s
      ≡ (ok tt, record s { result_queue = record { items = s.result_queue.items ++ t ∷ [] } })
unfolding push_result push
push_result-set [] s set = cc set
push_result-set (c ∷ t) s set = refl

pub finished_by_owner :
    (r : Round) (t : Text) (item : TaskStatusItem) (s : MasterState)
    → get (some t) s.task_status_dict ≡ some item
    → is_nil t ≡ false
    → handle_finished r item.controller t s ≡ (new_acknowledge, with_finished r t item s)
unfolding handle_finished report finish
finished_by_owner r t item s e set = simp (e, eq_self item.controller, push_result-set t after set)
  where
    after : MasterState
    after = record s { task_status_dict = (with_finished r t item s).task_status_dict }

finished_by_other :
    (r : Round) (other t : Text) (item : TaskStatusItem) (s : MasterState)
    → get (some t) s.task_status_dict ≡ some item
    → other == item.controller ≡ false
    → handle_finished r other t s ≡ (new_acknowledge, s)
unfolding handle_finished report finish
finished_by_other r other t item s e differs = simp (e, differs)

-- A task with an id that is served to a controller's request while it is not outstanding: the
-- later report of this controller is acknowledged, marks the task as finished and puts its id at the
-- end of the results, and the report of any other controller is acknowledged and changes nothing.
pub assigned-finishes :
    (c : Config) (r later : Round) (controller other t : Text) (task : Task) (rest : List Task)
    (s : MasterState)
    → r.is_locked ≡ true
    → task.tid ≡ some t
    → is_nil t ≡ false
    → other == controller ≡ false
    → ¬ IsOutstanding c r (get task.tid s.task_status_dict)
    → let served = (handle_request c r controller (with_queue s (task ∷ rest))).1 in
      (handle_finished later controller t served
        ≡ (new_acknowledge, with_finished later t (assigned_to r controller task) served))
      × (handle_finished later other t served ≡ (new_acknowledge, served))
assigned-finishes c r later controller other t task rest s locked has_tid set differs due = (
  finished_by_owner later t (assigned_to r controller task) _ known set,
  finished_by_other later other t (assigned_to r controller task) _ known differs,
)
  where
    served : MasterState
    served = (handle_request c r controller (with_queue s (task ∷ rest))).1

    known : get (some t) served.task_status_dict ≡ some (assigned_to r controller task)
    known =
        let (_, _, status) = request-Assigns c r controller task rest s locked due in
        ap (λ k. get k served.task_status_dict) (sym has_tid)
        ∙ status task.tid
        ∙ rw (eq_self task.tid) refl
