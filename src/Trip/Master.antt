-- ===== src/Trip/Master.antt =====
-- The master's part of a task's way (cyclone-master.py): it serves the request of a controller, and learns from the
-- report that the task is finished.
use cyclone_distributed_task.Prelude.{
  none, ◌≡◌, true, ◌∷◌, Text, ℕ, text_eq, option_eq, List, Option, ◌∙◌, some, refl, ◌+◌, ap, sym,
  eq_self,
}
use cyclone_distributed_task.Py.Dict.{put, get, get-put}
use cyclone_distributed_task.Py.Str.{Lacks}
use cyclone_distributed_task.Msg.Message.{
  field_separator, to_string, sender, type_of, Message, new_acknowledge,
}
use cyclone_distributed_task.Msg.RoundTrip.{report_of, request_of, read-request, read-report}
use cyclone_distributed_task.Master.State.{Config, MasterState, Round}
use cyclone_distributed_task.Master.Handlers.{
  handle_request, handle_message, handle_finished, offer, assign, assign_again,
}
use cyclone_distributed_task.Master.Loop.{answer, receive, note_heartbeat}
use cyclone_distributed_task.Task.Object.{Task}
use cyclone_distributed_task.Ctrl.TaskStatus.{TaskStatusItem}
use cyclone_distributed_task.Master.Assignment.{
  IsOutstanding, with_queue, offer-new, offer-known, request-offer, due_test, assigned_to,
}
use cyclone_distributed_task.Py.Result.{ok}
use cyclone_distributed_task.Msg.TaskAssign.{from_task}
use cyclone_distributed_task.Master.Finish.{with_finished, finished_by_owner}

-- The master has heard of a controller.
abbrev pub noted : Round → Text → MasterState → MasterState
noted r controller s = record s {
  controller_heartbeat_dict = put controller r.heartbeat_time s.controller_heartbeat_dict;
}

receive-request :
    (c : Config) (r : Round) (ch : ℕ) (name : Text) (s : MasterState)
    → Lacks field_separator (ch ∷ name)
    → s.task_distribution ≡ true
    → receive c r (to_string (request_of (ch ∷ name))) s
      ≡ handle_request c r (ch ∷ name) (noted r (ch ∷ name) s)
unfolding receive answer note_heartbeat handle_message sender type_of
receive-request c r ch name s lacks on = simp (read-request ch name lacks, on)

receive-report :
    (c : Config) (r : Round) (ch d : ℕ) (name id : Text) (s : MasterState)
    → Lacks field_separator (ch ∷ name)
    → Lacks field_separator (d ∷ id)
    → s.task_distribution ≡ true
    → receive c r (to_string (report_of (ch ∷ name) (d ∷ id))) s
      ≡ handle_finished r (ch ∷ name) (d ∷ id) (noted r (ch ∷ name) s)
unfolding receive answer note_heartbeat handle_message type_of
receive-report c r ch d name id s lacks id_lacks on =
    let (read, from, has) = read-report ch d name id lacks id_lacks in simp (read, from, has, on)

module _ (c : Config) (r : Round) (controller : Text) (task : Task) (rest : List Task)
    (s : MasterState) where
  -- What the master does with a task that is due
  offer-assign :
      (o : Option TaskStatusItem)
      → get task.tid s.task_status_dict ≡ o
      → ¬ IsOutstanding c r o
      → offer c r controller (some task) (with_queue s rest)
        ≡ assign r controller task (with_queue s rest)
  offer-assign none e due = offer-new c r controller task (with_queue s rest) e
  offer-assign (some item) e due =
      offer-known c r controller task (with_queue s rest) item e
      ∙ (unfold assign_again in
          rw
            (due_test item.state r.last_exec_timestamp (item.timestamp + c.task_resend_timeout) due)
            refl)

  request-assign :
      r.is_locked ≡ true
      → ¬ IsOutstanding c r (get task.tid s.task_status_dict)
      → handle_request c r controller (with_queue s (task ∷ rest))
        ≡ assign r controller task (with_queue s rest)
  request-assign locked due =
      request-offer c r controller task rest s locked ∙ offer-assign _ refl due

-- The master that has handed out the task
abbrev pub after_request : Round → Text → Task → List Task → MasterState → MasterState
after_request r controller task rest s = record s {
  task_queue = record { items = rest };
  task_status_dict = put task.tid (assigned_to r controller task) s.task_status_dict;
  controller_heartbeat_dict = put controller r.heartbeat_time s.controller_heartbeat_dict;
}

pub serves :
    (c : Config) (r : Round) (ch : ℕ) (name : Text) (task : Task) (rest : List Task)
    (s : MasterState) (m : Message)
    → Lacks field_separator (ch ∷ name)
    → s.task_distribution ≡ true
    → r.is_locked ≡ true
    → ¬ IsOutstanding c r (get task.tid s.task_status_dict)
    → from_task task ≡ ok m
    → receive c r (to_string (request_of (ch ∷ name))) (with_queue s (task ∷ rest))
      ≡ (ok m, after_request r (ch ∷ name) task rest s)
serves c r ch name task rest s m lacks on locked due sent =
    receive-request c r ch name (with_queue s (task ∷ rest)) lacks on
    ∙ request-assign c r (ch ∷ name) task rest (noted r (ch ∷ name) s) locked due
    ∙ (unfold assign in rw sent refl)

-- The master that was told that the task is finished
abbrev pub after_report : Round → Round → Text → Text → Task → MasterState → MasterState
after_report r later controller tid task s =
    with_finished later tid (assigned_to r controller task) (noted later controller s)

pub learns :
    (c : Config) (r later : Round) (ch d : ℕ) (name id : Text) (task : Task) (rest : List Task)
    (s : MasterState)
    → Lacks field_separator (ch ∷ name)
    → Lacks field_separator (d ∷ id)
    → s.task_distribution ≡ true
    → task.tid ≡ some (d ∷ id)
    → let t = after_request r (ch ∷ name) task rest s in
      receive c later (to_string (report_of (ch ∷ name) (d ∷ id))) t
      ≡ (new_acknowledge, after_report r later (ch ∷ name) (d ∷ id) task t)
learns c r later ch d name id task rest s lacks id_lacks on has_tid =
    receive-report c later ch d name id t lacks id_lacks on
    ∙ finished_by_owner later (d ∷ id) (assigned_to r (ch ∷ name) task) (noted later (ch ∷ name) t)
        known refl
  where
    t : MasterState
    t = after_request r (ch ∷ name) task rest s

    known : get (some (d ∷ id)) t.task_status_dict ≡ some (assigned_to r (ch ∷ name) task)
    known =
        ap (λ k. get k t.task_status_dict) (sym has_tid)
        ∙ get-put task.tid task.tid (assigned_to r (ch ∷ name) task) s.task_status_dict
        ∙ rw (eq_self task.tid) refl
