-- ===== src/Master/Assignment.antt =====
-- The decision of the master about the task at the head of its queue (lines on `TASK_REQUEST`).
use cyclone_distributed_task.Prelude.{
  ℕ, ◌+◌, ◌<◌, ◌≡◌, refl, true, false, Option, none, some, ◌∷◌, arith, Text, pos, option_eq, ◌==◌,
  ◌||◌, leb, Bool-cases, inl, ◌&&◌, inr, ltb, List, if◌then◌else◌,
}
use cyclone_distributed_task.Py.Result.{Result}
use cyclone_distributed_task.Py.Dict.{get, get-put}
use cyclone_distributed_task.Py.Int
use cyclone_distributed_task.Ctrl.SharedQueue.{pop_nowait}
use cyclone_distributed_task.Ctrl.TaskStatus.{
  TaskStatusItem, assigned, finished, TaskState, is_finished, is_assigned,
}
use cyclone_distributed_task.Task.Object.{Task}
use cyclone_distributed_task.Msg.Message.{Message, new_wait_command}
use cyclone_distributed_task.Msg.TaskAssign.{from_task}
use cyclone_distributed_task.Master.State.{Config, MasterState, Round}
use cyclone_distributed_task.Master.Handlers.{
  handle_request, take_task, offer, assign_again, assign,
}

-- The task is with a controller: it was assigned, and the time to resend it has not come.
abbrev pub IsOutstanding : Config → Round → Option TaskStatusItem → Type 0
IsOutstanding c r none = ⊥
IsOutstanding c r (some item) =
    (item.state ≡ assigned) × (r.last_exec_timestamp < item.timestamp + c.task_resend_timeout)

abbrev pub assigned_to : Round → Text → Task → TaskStatusItem
assigned_to r controller task = record {
  tid = task.tid;
  state = assigned;
  controller = controller;
  timestamp = r.status_time;
}

outstanding_tests :
    (st : TaskState) (n threshold : ℕ)
    → (st ≡ assigned) × (n < threshold)
    → ((is_finished st || leb threshold n) ≡ false) × ((is_assigned st && ltb n threshold) ≡ true)
outstanding_tests assigned n threshold h = ground arith
outstanding_tests finished n threshold h = ground arith

pub due_test :
    (st : TaskState) (n threshold : ℕ)
    → ¬ ((st ≡ assigned) × (n < threshold))
    → (is_finished st || leb threshold n) ≡ true
due_test finished n threshold h = refl
due_test assigned n threshold h = elim (Bool-cases (leb threshold n)) [
  | inl y ↦ y
  | inr z ↦ absurd (h (refl, ground arith))
]

module _ (c : Config) (r : Round) (controller : Text) (task : Task) (s : MasterState) where
  -- The task has been taken from the queue, and nothing else has changed.
  abbrev pub Waits : Result Message × MasterState → Type 0
  Waits x = (x.0 ≡ new_wait_command (Int.format (pos s.controller_wait_duration))) × (x.1 ≡ s)

  abbrev pub Assigns : Result Message × MasterState → Type 0
  Assigns x =
      (x.0 ≡ from_task task)
      × (x.1.task_queue ≡ s.task_queue)
      × ((t : Option Text)
          → get t x.1.task_status_dict ≡ (
              if task.tid == t
              then some (assigned_to r controller task)
              else get t s.task_status_dict))

  offer-Waits :
      (item : TaskStatusItem)
      → IsOutstanding c r (some item)
      → Waits (assign_again c r controller task item s)
  unfolding assign_again
  offer-Waits item h =
      let (f, a) =
        outstanding_tests item.state r.last_exec_timestamp (item.timestamp + c.task_resend_timeout)
          h in
      rw (f, a) (refl, refl)

  assign-Assigns : Assigns (assign r controller task s)
  unfolding assign
  assign-Assigns =
      (refl, refl, λ t. get-put task.tid t (assigned_to r controller task) s.task_status_dict)

  offer-Assigns :
      (item : TaskStatusItem)
      → ¬ IsOutstanding c r (some item)
      → Assigns (assign_again c r controller task item s)
  unfolding assign_again
  offer-Assigns item h =
      rw (due_test item.state r.last_exec_timestamp (item.timestamp + c.task_resend_timeout) h)
        assign-Assigns

abbrev pub with_queue : MasterState → List Task → MasterState
with_queue s tasks = record s { task_queue = record { items = tasks } }

pub request-offer :
    (c : Config) (r : Round) (controller : Text) (task : Task) (rest : List Task) (s : MasterState)
    → r.is_locked ≡ true
    → handle_request c r controller (with_queue s (task ∷ rest))
      ≡ offer c r controller (some task) (with_queue s rest)
unfolding handle_request take_task pop_nowait
request-offer c r controller task rest s h = rw h

module _ (c : Config) (r : Round) (controller : Text) (task : Task) (s : MasterState) where
  pub offer-new :
      get task.tid s.task_status_dict ≡ none
      → offer c r controller (some task) s ≡ assign r controller task s
  unfolding offer
  offer-new e = rw (e, offer)

  pub offer-known :
      (item : TaskStatusItem)
      → get task.tid s.task_status_dict ≡ some item
      → offer c r controller (some task) s ≡ assign_again c r controller task item s
  unfolding offer
  offer-known item e = rw (e, offer)

  decide :
      (o : Option TaskStatusItem)
      → get task.tid s.task_status_dict ≡ o
      → (IsOutstanding c r o → Waits c r controller task s (offer c r controller (some task) s))
        × (¬ IsOutstanding c r o
            → Assigns c r controller task s (offer c r controller (some task) s))
  decide none e = (λ h. absurd h, λ h. rw (offer-new e) (assign-Assigns c r controller task s))
  decide (some item) e = (
    λ h. rw (offer-known item e) (offer-Waits c r controller task s item h),
    λ h. rw (offer-known item e) (offer-Assigns c r controller task s item h),
  )

-- When the master serves a request with the queue's lock held, a task at the head of the queue that
-- is outstanding (assigned, and its time to be resent not reached) leaves the queue and is not handed
-- out a second time: the reply is a wait command, and nothing else changes.
pub request-Waits :
    (c : Config) (r : Round) (controller : Text) (task : Task) (rest : List Task) (s : MasterState)
    → r.is_locked ≡ true
    → IsOutstanding c r (get task.tid s.task_status_dict)
    → Waits c r controller task
        (with_queue s rest)
        (handle_request c r controller (with_queue s (task ∷ rest)))
request-Waits c r controller task rest s h out =
    rw (request-offer c r controller task rest s h)
      ((decide c r controller task (with_queue s rest) _ refl).0 out)

-- When the master serves a request with the queue's lock held, a task at the head of the queue that
-- is not outstanding is taken from the queue and handed out: the reply is the assignment of the
-- task, its status becomes "assigned to the sender at this time", and no other status changes.
pub request-Assigns :
    (c : Config) (r : Round) (controller : Text) (task : Task) (rest : List Task) (s : MasterState)
    → r.is_locked ≡ true
    → ¬ IsOutstanding c r (get task.tid s.task_status_dict)
    → Assigns c r controller task
        (with_queue s rest)
        (handle_request c r controller (with_queue s (task ∷ rest)))
request-Assigns c r controller task rest s h due =
    rw (request-offer c r controller task rest s h)
      ((decide c r controller task (with_queue s rest) _ refl).1 due)
