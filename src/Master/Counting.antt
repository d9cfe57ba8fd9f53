-- ===== src/Master/Counting.antt =====
-- The count of the exceptions in the loop of cyclone-master.py: every round that raises is counted once.
mod Rules
mod Handlers
use cyclone_distributed_task.Prelude.{
  ◌==◌, text_eq, option_eq, ◌≡◌, refl, ◌∙◌, true, false, Bool, Option, none, some, [], ◌∷◌, Text,
  arith, if◌then◌else◌, Bool-cases, List, ℕ, inl, inr, length, ◌+◌, ap,
}
use cyclone_distributed_task.Py.Result.{Result, Error, ok, err}
use cyclone_distributed_task.Py.Exec.{raise, pure, lift, and_then, ◌>>=◌, ◌>>◌}
use cyclone_distributed_task.Py.Dict.{put, for_keys, get, Dict, keys}
use cyclone_distributed_task.Ctrl.TaskStatus.{finished, TaskStatusItem}
use cyclone_distributed_task.Ctrl.SharedQueue.{push, pop_nowait}
use cyclone_distributed_task.Task.Object.{Task}
use cyclone_distributed_task.Msg.Message.{Message, new_acknowledge}
use cyclone_distributed_task.Master.State.{Config, MasterState, Round}
use cyclone_distributed_task.Master.Handlers.{
  Handler, take_task, assign, wait, assign_again, offer, handle_request, push_result, finish,
  report, handle_finished, handle_message, after_loop, drop_controller, handle_exit, handle_timeout,
  stop_if_all_down, drop_expired,
}
use cyclone_distributed_task.Master.Assignment.{offer-new, offer-known}
use cyclone_distributed_task.Master.Loop.{
  stop_task_distribution, collected, answer_unsent, attempt, attempt_unsent, note_heartbeat,
  receive_unsent, Event, answer, caught, receive, run, step, on_exception, round, serve, try_round,
  recv_fails, send_fails, generated, refilled,
}
use cyclone_distributed_task.Master.Counting.Handlers.{
  attempt-LeavesCount, attempt_unsent-LeavesCount,
}

-- One, if it is an exception
abbrev pub raised : {A : Type 0} → Result A → ℕ
raised (ok a) = 0
raised (err e) = 1

-- The exceptions of an event, if the loop still runs
abbrev pub raised_at : Config → Event → MasterState → ℕ
raised_at c (serve r) s = if s.run_flag then raised (try_round c r s).0 else 0
raised_at c (recv_fails e) s = if s.run_flag then 1 else 0
raised_at c (send_fails r e) s =
    if s.run_flag then raised (attempt_unsent c r e r.recv_data s).0 else 0
raised_at c _ s = 0

-- How many rounds of the loop raise
abbrev pub raised_rounds : Config → List Event → MasterState → ℕ
raised_rounds c [] s = 0
raised_rounds c (e ∷ es) s = raised_at c e s + raised_rounds c es (step c e s)

caught-counts :
    (result : Result (Option Text)) (s : MasterState)
    → (caught result s).1.error_count ≡ raised result + s.error_count
unfolding caught on_exception
caught-counts (ok reply) s = omega arith
caught-counts (err e) s = omega arith

step-counts :
    (c : Config) (e : Event) (s : MasterState)
    → (step c e s).error_count ≡ raised_at c e s + s.error_count
unfolding step round try_round
step-counts c (serve r) s = elim (Bool-cases s.run_flag) [
  | inl y ↦ simp y (
      caught-counts (attempt c r r.recv_data s).0 (attempt c r r.recv_data s).1
      ∙ ap (λ n. raised (attempt c r r.recv_data s).0 + n)
          ((attempt-LeavesCount c r r.recv_data).at s))
  | inr n ↦ simp n (omega arith)
]
step-counts c (recv_fails e) s = elim (Bool-cases s.run_flag) [
  | inl y ↦ simp y (caught-counts (err e) s)
  | inr n ↦ simp n (omega arith)
]
step-counts c (send_fails r e) s = elim (Bool-cases s.run_flag) [
  | inl y ↦ simp y (
      caught-counts (attempt_unsent c r e r.recv_data s).0 (attempt_unsent c r e r.recv_data s).1
      ∙ ap (λ n. raised (attempt_unsent c r e r.recv_data s).0 + n)
          ((attempt_unsent-LeavesCount c r e r.recv_data).at s))
  | inr n ↦ simp n (omega arith)
]
step-counts c stop_task_distribution s = omega arith
step-counts c (generated task) s = omega arith
step-counts c (refilled tasks) s = omega arith
step-counts c collected s = omega arith

pub run-counts :
    (c : Config) (es : List Event) (s : MasterState)
    → (run c es s).error_count ≡ raised_rounds c es s + s.error_count
unfolding run
run-counts c [] s = omega arith
run-counts c (e ∷ es) s = run-counts c es (step c e s) ∙ omega (arith, step-counts c e s)
