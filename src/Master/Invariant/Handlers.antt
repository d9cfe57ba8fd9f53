-- ===== src/Master/Invariant/Handlers.antt =====
-- The handlers of the master keep the invariant, each on every branch.
use cyclone_distributed_task.Prelude.{
  ◌≡◌, ◌≢◌, refl, Option, none, some, [], ◌∷◌, arith, Text, option_eq, inl, inr, Option-cases,
  eq_self, All-append, text_eq, ◌==◌, length, ℕ,
}
use cyclone_distributed_task.Py.Dict.{get, get-put, put, for_keys, keys}
use cyclone_distributed_task.Ctrl.SharedQueue.{pop_nowait, push}
use cyclone_distributed_task.Ctrl.TaskStatus.{TaskStatusItem, finished}
use cyclone_distributed_task.Task.Object.{Task}
use cyclone_distributed_task.Master.State.{Config, MasterState, Round}
use cyclone_distributed_task.Master.Handlers.{
  handle_request, take_task, offer, assign, assign_again, wait, push_result, finish, handle_exit,
  handle_finished, handle_message, handle_timeout, report, stop_if_all_down, after_loop,
  drop_expired, drop_controller,
}
use cyclone_distributed_task.Master.Assignment.{offer-new, offer-known}
use cyclone_distributed_task.Master.Invariant.{
  IsConsistent, Keeps, keeps_rules, put-IsKeyed, put-AreKnown, IsConsistent-of_same, Bool-cases,
  Keeps-and_then, lift, Keeps-lift, Result, Dict, Keeps-if, ok, err, pure, Keeps-pure,
}
use cyclone_distributed_task.Msg.Message.{Message, new_acknowledge}

take_task-same :
    (r : Round) (s : MasterState)
    → ((take_task r s).1.task_status_dict ≡ s.task_status_dict)
      × ((take_task r s).1.result_queue ≡ s.result_queue)
      × ((take_task r s).1.error_count ≡ s.error_count)
      × ((take_task r s).1.run_flag ≡ s.run_flag)
unfolding take_task pop_nowait
take_task-same r s = ground arith

take_task-Keeps : (r : Round) → Keeps (take_task r)
take_task-Keeps r = record {
  at = λ s h.
      let (d, q, n, f) = take_task-same r s in
      IsConsistent-of_same s (take_task r s).1 d q n (λ e. rw (← f) e) h;
}

assign-Keeps : (r : Round) (controller : Text) (task : Task) → Keeps (assign r controller task)
unfolding assign
assign-Keeps r controller task = record {
  at = λ s h. record {
    keyed = put-IsKeyed task.tid _ s.task_status_dict refl h.keyed;
    known = put-AreKnown task.tid _ s.task_status_dict s.result_queue.items h.known;
    errors = h.errors;
  };
}

wait-Keeps : Keeps wait
unfolding wait
wait-Keeps = record { at = λ s h. h }

assign_again-Keeps :
    (c : Config) (r : Round) (controller : Text) (task : Task) (item : TaskStatusItem)
    → Keeps (assign_again c r controller task item)
unfolding assign_again
assign_again-Keeps c r controller task item = search (keeps_rules, assign-Keeps, wait-Keeps)

offer-Keeps :
    (c : Config) (r : Round) (controller : Text) (o : Option Task) → Keeps (offer c r controller o)
offer-Keeps c r controller none = record { at = λ s h. unfold offer in h }
offer-Keeps c r controller (some task) = record {
  at = λ s h. elim (Option-cases (get task.tid s.task_status_dict)) [
    | inl e ↦ rw (offer-new c r controller task s e) ((assign-Keeps r controller task).at s h)
    | inr (item, e) ↦
        rw (offer-known c r controller task s item e)
          ((assign_again-Keeps c r controller task item).at s h)
  ];
}

handle_request-Keeps :
    (c : Config) (r : Round) (controller : Text) → Keeps (handle_request c r controller)
unfolding handle_request
handle_request-Keeps c r controller = search (keeps_rules, take_task-Keeps, offer-Keeps)

-- What a task's controller reports: the new status and the result.
module _ (r : Round) (t : Text) (item : TaskStatusItem) (s : MasterState) where
  abbrev reported : MasterState
  reported = record s {
    task_status_dict =
        put (some t) (record item { state = finished; timestamp = r.status_time })
          s.task_status_dict;
  }

  get-reported-ne : get (some t) reported.task_status_dict ≢ none
  get-reported-ne e = ground (
    arith,
    get-put (some t) (some t) (record item { state = finished; timestamp = r.status_time })
        s.task_status_dict,
    eq_self {A = Option Text} (some t),
  )

  reported-IsConsistent :
      get (some t) s.task_status_dict ≡ some item → IsConsistent s → IsConsistent reported
  reported-IsConsistent e h = record {
    keyed = put-IsKeyed (some t) _ s.task_status_dict (h.keyed (some t) item e) h.keyed;
    known = put-AreKnown (some t) _ s.task_status_dict s.result_queue.items h.known;
    errors = h.errors;
  }

push_result-IsConsistent :
    (t : Text) (s : MasterState)
    → get (some t) s.task_status_dict ≢ none
    → IsConsistent s
    → IsConsistent (push_result t s).1
unfolding push_result push
push_result-IsConsistent [] s n h = h
push_result-IsConsistent (x ∷ t) s n h = record {
  keyed = h.keyed;
  known = All-append _ s.result_queue.items ((x ∷ t) ∷ []) h.known (n, tt);
  errors = h.errors;
}

finish-IsConsistent :
    (r : Round) (controller t : Text) (item : TaskStatusItem) (s : MasterState)
    → get (some t) s.task_status_dict ≡ some item
    → IsConsistent s
    → IsConsistent (finish r controller t item s).1
unfolding finish
finish-IsConsistent r controller t item s e h = elim (Bool-cases (controller == item.controller)) [
  | inl y ↦ rw y (
      push_result-IsConsistent t (reported r t item s) (get-reported-ne r t item s)
        (reported-IsConsistent r t item s e h))
  | inr n ↦ rw n h
]

report-IsConsistent :
    (r : Round) (controller t : Text) (o : Option TaskStatusItem) (s : MasterState)
    → get (some t) s.task_status_dict ≡ o
    → IsConsistent s
    → IsConsistent (report r controller t o s).1
unfolding report
report-IsConsistent r controller t none s e h = h
report-IsConsistent r controller t (some item) s e h = finish-IsConsistent r controller t item s e h

handle_finished-Keeps : (r : Round) (controller t : Text) → Keeps (handle_finished r controller t)
unfolding handle_finished
handle_finished-Keeps r controller t = record {
  at = λ s h.
      let found = get (some t) s.task_status_dict in
      let m = report r controller t found in
      Keeps-and_then (m s).0 (λ _. lift new_acknowledge) (m s).1 (λ _. Keeps-lift new_acknowledge)
        (report-IsConsistent r controller t found s refl h);
}

pub handle_message-Keeps :
    (c : Config) (r : Round) (m : Message) (controller : Text)
    → Keeps (handle_message c r m controller)
unfolding handle_message
handle_message-Keeps c r m controller =
    search (keeps_rules, handle_request-Keeps, handle_finished-Keeps)

stop_if_all_down-Keeps : Keeps stop_if_all_down
unfolding stop_if_all_down
stop_if_all_down-Keeps = record {
  at = λ s h. IsConsistent-of_same s (stop_if_all_down s).1 refl refl refl (λ e. ground arith) h;
}

drop_controller-Keeps : (controller : Text) → Keeps (drop_controller controller)
unfolding drop_controller
drop_controller-Keeps controller = record {
  at = λ s h. IsConsistent-of_same s _ refl refl refl (λ e. e) h;
}

pub handle_exit-Keeps : (controller : Text) → Keeps (handle_exit controller)
unfolding handle_exit
handle_exit-Keeps controller = search (keeps_rules, stop_if_all_down-Keeps, drop_controller-Keeps)

after_loop-Keeps : (x : Result (Unit {0}) × Dict Text ℕ) → Keeps (after_loop x)
unfolding after_loop
after_loop-Keeps (ok _, d) = record {
  at = λ s h.
      let s' = record s { controller_heartbeat_dict = d } in
      stop_if_all_down-Keeps.at s' (IsConsistent-of_same s s' refl refl refl (λ e. e) h);
}
after_loop-Keeps (err e, d) = record {
  at = λ s h. IsConsistent-of_same s _ refl refl refl (λ e. e) h;
}

pub handle_timeout-Keeps : (c : Config) (r : Round) → Keeps (handle_timeout c r)
unfolding handle_timeout
handle_timeout-Keeps c r = record {
  at = λ s h.
      let d = s.controller_heartbeat_dict in
      let loop = for_keys (drop_expired c r) (length d) (keys d) d in
      (Keeps-if s.task_distribution (pure tt) (after_loop loop) (Keeps-pure tt)
          (after_loop-Keeps loop)).at
        s h;
}
