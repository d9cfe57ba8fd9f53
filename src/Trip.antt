-- ===== src/Trip.antt =====
-- The way of a task through the parts: the master of cyclone-master.py assigns it, the controller of
-- cyclone-controller.py rebuilds it from the text, a worker of ctrl/worker.py executes it, the controller reports its
-- id, and the master marks it as finished.
use cyclone_distributed_task.Prelude.{
  none, ◌++◌, ℕ, ◌≡◌, refl, true, false, some, List, [], ◌∷◌, Text, ltb, map, sym, ◌∙◌, ap,
  option_eq,
}
use cyclone_distributed_task.Py.Result.{ok, ◌>>=◌}
use cyclone_distributed_task.Py.Dict.{get}
use cyclone_distributed_task.Py.Str.{Lacks}
use cyclone_distributed_task.Task.Object.{Task, instantiate}
use cyclone_distributed_task.Msg.Message.{Message, to_string, new_acknowledge, field_separator}
use cyclone_distributed_task.Msg.RoundTrip.{request_of, report_of}
use cyclone_distributed_task.Msg.TaskTransfer.{IsRebuilt, IsTransferable, to_task-from_task}
use cyclone_distributed_task.Controller.Worker.{
  WorkerProcess, WorkerRound, worker_round, byte_length,
}
use cyclone_distributed_task.Controller.WorkerRuns.{is_over}
use cyclone_distributed_task.Controller.Loop.{
  ControllerConfig, ControllerState, ControllerRound, respond, choose,
}
use cyclone_distributed_task.Master.State.{Config, MasterState, Round}
use cyclone_distributed_task.Master.Loop.{receive}
use cyclone_distributed_task.Master.Assignment.{IsOutstanding, with_queue}
use cyclone_distributed_task.Trip.Master.{after_request, after_report, serves, learns}
use cyclone_distributed_task.Trip.Controller.{
  handed, sees, respond-assignment, worker-handed, choose-report,
}
mod Controller
mod Master

-- The parties: the configurations, what the rounds read, and the states before the task is sent
pub record Scene : Type 0 where
  pub master_config : Config
  pub request_round : Round
  pub report_round : Round
  pub master : MasterState
  pub controller_config : ControllerConfig
  pub controller_round : ControllerRound
  pub controller : ControllerState
  pub worker_round_input : WorkerRound
  pub worker : WorkerProcess

-- The master distributes and holds the lock, its status of the task does not forbid to send it, and the queues that the
-- controller shares with its workers are empty.
pub record IsReady (p : Scene) (task : Task) : Type 0 where
  pub distributes : p.master.task_distribution ≡ true
  pub locked : p.request_round.is_locked ≡ true
  pub due : ¬ IsOutstanding p.master_config p.request_round (get task.tid p.master.task_status_dict)
  pub idle : p.controller.task_queue.items ≡ []
  pub no_results : p.controller.result_queue.items ≡ []

-- The controller that has taken the result of the worker
abbrev pub reported : Text → ControllerState → ControllerState
reported tid s = record s {
  task_queue = record { items = [] };
  result_queue = record { items = tid ∷ [] };
}

-- Five steps: the reply to the request, the controller at this reply, the worker, the controller's next choice, and the
-- master at the report.
pub record Travels (p : Scene) (name tid : Text) (task : Task) (rest : List Task) : Type 0 where
  pub assignment : Message
  pub assigned :
      receive p.master_config p.request_round
        (to_string (request_of name))
        (with_queue p.master (task ∷ rest))
      ≡ (ok assignment, after_request p.request_round name task rest p.master)
  pub accepted :
      respond p.controller_config (to_string assignment) p.controller
      ≡ (ok tt, handed task p.controller)
  pub executed :
      let after = worker_round p.worker_round_input (sees (handed task p.controller) p.worker) in
      (after.0 ≡ ok none)
      × (after.1.executed ≡ p.worker.executed ++ task ∷ [])
      × (after.1.task_queue.items ≡ [])
      × (after.1.result_queue.items ≡ map some (tid ∷ []))
  pub chosen :
      (choose p.controller_config p.controller_round (reported tid (handed task p.controller))).0
      ≡ ok (some (report_of name tid))
  pub learned :
      let before = after_request p.request_round name task rest p.master in
      receive p.master_config p.report_round (to_string (report_of name tid)) before
      ≡ (new_acknowledge, after_report p.request_round p.report_round name tid task before)

-- Where the master distributes and gets the lock, the controller has a name without separator, the queues of its
-- workers are empty, the id takes at most 64 bytes and the task's `execute` returns or raises: a transferable task that is
-- due and that its class makes again of the texts of its arguments makes the whole way. The master hands it out and notes
-- the controller in its status; the controller puts the same task into the queue of its workers; a worker takes it, calls
-- its `execute` once and pushes its id as the result; the controller's next message is the report of this id; and the
-- master answers the report with an acknowledgement, marks the task as finished and puts its id at the end of the results.
pub task-Travels :
    (p : Scene) (ch d : ℕ) (name id self : Text) (args texts : List Text) (task : Task)
    (rest : List Task)
    → p.controller_config.fqdn ≡ ch ∷ name
    → Lacks field_separator (ch ∷ name)
    → ltb 64 (byte_length (d ∷ id)) ≡ false
    → IsTransferable p.controller_config.import_class task (d ∷ id) self args texts
    → IsRebuilt task (d ∷ id) texts
    → IsReady p task
    → is_over (p.worker_round_input.execute task) ≡ true
    → Travels p (ch ∷ name) (d ∷ id) task rest
task-Travels p ch d name id self args texts task rest named lacks fits h again ready over =
    let (m, sent, read, type, rebuilt) =
      to_task-from_task p.controller_config.import_class task (d ∷ id) self args texts h again in
    let worked =
      worker-handed p.worker_round_input task d id p.controller p.worker ready.idle h.has_tid fits
        over in
    record {
      assignment = m;
      assigned =
          serves p.master_config p.request_round ch name task rest p.master m lacks
            ready.distributes ready.locked ready.due sent;
      accepted = respond-assignment p.controller_config m task p.controller read type rebuilt;
      executed = rw worked (refl, refl, refl, rw ready.no_results refl);
      chosen =
          choose-report p.controller_config p.controller_round ch d name id
            (reported (d ∷ id) (handed task p.controller)) named refl;
      learned =
          learns p.master_config p.request_round p.report_round ch d name id task rest p.master
            lacks h.tid_lacks ready.distributes h.has_tid;
    }
