-- ===== src/Master/Invariant/Runs.antt =====
-- The invariant of the master holds after every round, however it ends, and between the rounds
-- whatever the other processes and the signals do.
use cyclone_distributed_task.Prelude.{refl, Option, none, some, List, [], ◌∷◌, arith, Text}
use cyclone_distributed_task.Py.Result.{Error, Result, ok, err}
use cyclone_distributed_task.Master.State.{Config, MasterState, Round, start}
use cyclone_distributed_task.Master.Loop.{
  recv_fails, send_fails, answer_unsent, receive_unsent, attempt_unsent, answer, receive, try_round,
  on_exception, caught, round, Event, serve, stop_task_distribution, generated, refilled, collected,
  step, run, note_heartbeat, attempt,
}
use cyclone_distributed_task.Master.Invariant.{
  Keeps-bind, Keeps-raise, IsConsistent, Keeps, keeps_rules, IsConsistent-of_same, Keeps-if,
  Bool-cases, AreKnown, inl, inr, StatusDict, TaskStatusItem,
}
use cyclone_distributed_task.Master.Invariant.Handlers.{
  handle_message-Keeps, handle_exit-Keeps, handle_timeout-Keeps,
}
use cyclone_distributed_task.Msg.Message.{Message}
use cyclone_distributed_task.Master.Handlers.{handle_message, handle_exit}
use cyclone_distributed_task.Ctrl.SharedQueue.{SharedQueue, pop_nowait, first_of_items}
use cyclone_distributed_task.Py.Dict.{get-nil}
use cyclone_distributed_task.Py.Exec.{raise, ◌>>=◌}

answer-Keeps :
    (c : Config) (r : Round) (m : Message) (controller : Text) → Keeps (answer c r m controller)
unfolding answer
answer-Keeps c r m controller = record {
  at = λ s h.
      (Keeps-if s.task_distribution (handle_message c r m controller) (handle_exit controller)
          (handle_message-Keeps c r m controller) (handle_exit-Keeps controller)).at
        s h;
}

note_heartbeat-Keeps : (r : Round) (controller : Text) → Keeps (note_heartbeat r controller)
unfolding note_heartbeat
note_heartbeat-Keeps r controller = record {
  at = λ s h. IsConsistent-of_same s _ refl refl refl (λ e. e) h;
}

receive-Keeps : (c : Config) (r : Round) (message : Text) → Keeps (receive c r message)
unfolding receive
receive-Keeps c r message = search (keeps_rules, answer-Keeps, note_heartbeat-Keeps)

attempt-Keeps : (c : Config) (r : Round) (message : Option Text) → Keeps (attempt c r message)
unfolding attempt
attempt-Keeps c r none = search (keeps_rules, handle_timeout-Keeps)
attempt-Keeps c r (some m) = search (keeps_rules, receive-Keeps)

answer_unsent-Keeps :
    (c : Config) (r : Round) (e : Error) (m : Message) (controller : Text)
    → Keeps (answer_unsent c r e m controller)
unfolding answer_unsent
answer_unsent-Keeps c r e m controller = record {
  at = λ s h.
      (Keeps-if s.task_distribution (do reply ← handle_message c r m controller; raise e) (raise e)
          (Keeps-bind (handle_message c r m controller) (λ _. raise e)
            (handle_message-Keeps c r m controller) (λ _. Keeps-raise e))
          (Keeps-raise e)).at
        s h;
}

receive_unsent-Keeps :
    (c : Config) (r : Round) (e : Error) (message : Text) → Keeps (receive_unsent c r e message)
unfolding receive_unsent
receive_unsent-Keeps c r e message = search (keeps_rules, answer_unsent-Keeps, note_heartbeat-Keeps)

attempt_unsent-Keeps :
    (c : Config) (r : Round) (e : Error) (message : Option Text)
    → Keeps (attempt_unsent c r e message)
unfolding attempt_unsent
attempt_unsent-Keeps c r e none = search (keeps_rules, handle_timeout-Keeps)
attempt_unsent-Keeps c r e (some m) = receive_unsent-Keeps c r e m

on_exception-IsConsistent : (s : MasterState) → IsConsistent s → IsConsistent (on_exception s)
unfolding on_exception
on_exception-IsConsistent s h = record {
  keyed = h.keyed;
  known = h.known;
  errors = λ e. ground arith;
}

caught-IsConsistent :
    (x : Result (Option Text)) (s : MasterState) → IsConsistent s → IsConsistent (caught x s).1
unfolding caught
caught-IsConsistent (ok reply) s h = h
caught-IsConsistent (err e) s h = on_exception-IsConsistent s h

round-IsConsistent :
    (c : Config) (r : Round) (s : MasterState) → IsConsistent s → IsConsistent (round c r s).1
unfolding round try_round
round-IsConsistent c r s h =
    caught-IsConsistent (attempt c r r.recv_data s).0 (attempt c r r.recv_data s).1
      ((attempt-Keeps c r r.recv_data).at s h)

known-tail :
    (d : StatusDict) (q : SharedQueue Text) → AreKnown d q.items → AreKnown d (pop_nowait q).1.items
known-tail d q h = unfold pop_nowait in go q.items h
  where
    go : (l : List Text) → AreKnown d l → AreKnown d (first_of_items l).1.items
    go [] h = tt
    go (t ∷ l) h = h.1

step-IsConsistent :
    (c : Config) (e : Event) (s : MasterState) → IsConsistent s → IsConsistent (step c e s)
unfolding step
step-IsConsistent c (serve r) s h = elim (Bool-cases s.run_flag) [
  | inl y ↦ simp y (round-IsConsistent c r s h)
  | inr n ↦ simp n h
]
step-IsConsistent c (recv_fails e) s h = elim (Bool-cases s.run_flag) [
  | inl y ↦ simp y (caught-IsConsistent (err e) s h)
  | inr n ↦ simp n h
]
step-IsConsistent c (send_fails r e) s h = elim (Bool-cases s.run_flag) [
  | inl y ↦ simp y (
      caught-IsConsistent (attempt_unsent c r e r.recv_data s).0
        (attempt_unsent c r e r.recv_data s).1 ((attempt_unsent-Keeps c r e r.recv_data).at s h))
  | inr n ↦ simp n h
]
step-IsConsistent c stop_task_distribution s h = IsConsistent-of_same s _ refl refl refl (λ e. e) h
step-IsConsistent c (generated task) s h = IsConsistent-of_same s _ refl refl refl (λ e. e) h
step-IsConsistent c (refilled tasks) s h = IsConsistent-of_same s _ refl refl refl (λ e. e) h
step-IsConsistent c collected s h = record {
  keyed = h.keyed;
  known = known-tail s.task_status_dict s.result_queue h.known;
  errors = h.errors;
}

start-IsConsistent : (c : Config) → IsConsistent (start c)
start-IsConsistent c = record {
  keyed = λ k item e. cc (get-nil {V = TaskStatusItem} k);
  known = tt;
  errors = λ e. omega arith;
}

run-step :
    (c : Config) (es : List Event) (s : MasterState) → IsConsistent s → IsConsistent (run c es s)
unfolding run
run-step c [] s h = h
run-step c (e ∷ es) s h = run-step c es (step c e s) (step-IsConsistent c e s h)

-- From the start of the master and through any interleaving of its rounds (whatever is received,
-- and however a round ends, also where receiving or sending raises) with signals, pushes and refills by the generator and pops of
-- results: each status is kept under the id that it names, each result in the queue is the id of
-- a task that has been assigned at some time, and as long as the loop runs fewer than a hundred
-- exceptions have been counted.
pub run-IsConsistent : (c : Config) (es : List Event) → IsConsistent (run c es (start c))
run-IsConsistent c es = run-step c es (start c) (start-IsConsistent c)
