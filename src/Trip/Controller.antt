-- ===== src/Trip/Controller.antt =====
-- The controller's and the worker's part of a task's way (cyclone-controller.py, ctrl/worker.py): from the text of the
-- assignment to the report of the id.
use cyclone_distributed_task.Prelude.{
  true, none, map, ℕ, ◌≡◌, refl, false, some, [], ◌∷◌, ◌++◌, Text, text_eq, ltb,
}
use cyclone_distributed_task.Py.Result.{ok}
use cyclone_distributed_task.Ctrl.SharedQueue
use cyclone_distributed_task.Task.Object.{Task}
use cyclone_distributed_task.Msg.Message.{
  init, Message, to_string, type_of, task_ass, new_task_finished,
}
use cyclone_distributed_task.Msg.Factory.{create}
use cyclone_distributed_task.Msg.TaskAssign.{to_task}
use cyclone_distributed_task.Msg.RoundTrip.{report_of}
use cyclone_distributed_task.Controller.Worker.{
  WorkerProcess, WorkerRound, worker_round, byte_length,
}
use cyclone_distributed_task.Controller.WorkerRuns.{is_over, served, worker_round-served}
use cyclone_distributed_task.Controller.Loop.{
  ControllerConfig, ControllerState, ControllerRound, respond, process, push_task, choose,
  next_result,
}

-- The controller with one more task in the queue of the workers
abbrev pub handed : Task → ControllerState → ControllerState
handed task s = record s {
  task_queue = record { items = s.task_queue.items ++ task ∷ [] };
  request_retry_count = 0;
}

pub respond-assignment :
    (c : ControllerConfig) (m : Message) (task : Task) (s : ControllerState)
    → create (to_string m) ≡ ok m
    → type_of m ≡ task_ass
    → to_task c.import_class m ≡ ok task
    → respond c (to_string m) s ≡ (ok tt, handed task s)
unfolding respond process push_task SharedQueue.push
respond-assignment c m task s read type rebuilt = simp (read, type, rebuilt)

-- The queues that the controller shares with a worker
abbrev pub sees : ControllerState → WorkerProcess → WorkerProcess
sees s p = record p {
  task_queue = s.task_queue;
  result_queue = record { items = map some s.result_queue.items };
}

pub worker-handed :
    (w : WorkerRound) (task : Task) (d : ℕ) (id : Text) (s : ControllerState) (p : WorkerProcess)
    → s.task_queue.items ≡ []
    → task.tid ≡ some (d ∷ id)
    → ltb 64 (byte_length (d ∷ id)) ≡ false
    → is_over (w.execute task) ≡ true
    → worker_round w (sees (handed task s) p)
      ≡ (ok none, served w task (d ∷ id) [] (sees (handed task s) p))
worker-handed w task d id s p idle has_tid fits over =
    worker_round-served w task (d ∷ id) [] (sees (handed task s) p) (rw idle refl)
      (has_tid, refl, fits) over

pub choose-report :
    (c : ControllerConfig) (r : ControllerRound) (ch d : ℕ) (name id : Text) (s : ControllerState)
    → c.fqdn ≡ ch ∷ name
    → s.result_queue.items ≡ (d ∷ id) ∷ []
    → (choose c r s).0 ≡ ok (some (report_of (ch ∷ name) (d ∷ id)))
unfolding choose next_result SharedQueue.pop_nowait new_task_finished init
choose-report c r ch d name id s named e = simp (e, named)
