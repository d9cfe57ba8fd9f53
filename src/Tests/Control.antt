-- ===== src/Tests/Control.antt =====
-- The theorems on the controller, its workers, the PID file and the metrics at concrete states.
use cyclone_distributed_task.Prelude.{
  ◌≡◌, refl, true, false, none, some, [], ◌∷◌, ◌++◌, map, Text, codes, ℤ, pos, if◌then◌else◌, arith,
}
use cyclone_distributed_task.Py.Result.{ok, err, runtime_error}
use cyclone_distributed_task.Py.Int
use cyclone_distributed_task.Ctrl.SharedQueue
use cyclone_distributed_task.Ctrl.PidControl
use cyclone_distributed_task.Task.Object.{Task}
use cyclone_distributed_task.Task.Classes.{benchmark_task, import_class}
use cyclone_distributed_task.Prometheus.CreationCheck.{to_string}
use cyclone_distributed_task.Prometheus.Metrics.{
  Processor, process as process_message, checked, metric, is_metric, metric_value, process-checked,
}
use cyclone_distributed_task.Controller.Worker.{
  raises, ready, executing, WorkerProcess, WorkerRound, run_rounds, byte_length,
}
use cyclone_distributed_task.Controller.WorkerRuns.{run_rounds-reports, run_rounds-too_long}
use cyclone_distributed_task.Controller.Loop.{
  ControllerConfig, ControllerRound, ControllerState, found_ready_worker, run,
}
use cyclone_distributed_task.Controller.Retry.{run-gives_up}

abbrev task_of : Text → Task
task_of tid = record { class = benchmark_task; tid = some tid; attributes = [] }

abbrev worker_at : Text → WorkerProcess
worker_at tid = record {
  item = record { state = ready; tid = []; timestamp = 0 };
  task_queue = record { items = task_of tid ∷ [] };
  result_queue = SharedQueue.empty;
  run_flag = true;
  executed = [];
}

abbrev worker_round : WorkerRound
worker_round = record {
  begin_time = 10;
  end_time = 12;
  is_shut_down = false;
  execute = λ _. raises runtime_error;
}

run_rounds-reports_example :
    (t : WorkerProcess) × (run_rounds (worker_round ∷ []) (worker_at (codes "7")) ≡ (none, t))
    × (t.result_queue.items ≡ [] ++ map some (codes "7" ∷ []))
    × (t.executed ≡ task_of (codes "7") ∷ [])
    × (t.task_queue.items ≡ [])
    × (t.run_flag ≡ true)
unfolding byte_length
run_rounds-reports_example =
    run_rounds-reports (worker_round ∷ []) (task_of (codes "7") ∷ []) (codes "7" ∷ [])
      (worker_at (codes "7")) refl refl (refl, (refl, refl, refl), refl, tt)

abbrev long_tid : Text
long_tid = codes "0123456789012345678901234567890123456789012345678901234567890123456789"

run_rounds-too_long_example :
    let r = run_rounds (worker_round ∷ []) (worker_at long_tid) in
    (r.0 ≡ some 1)
    × (r.1.task_queue.items ≡ [])
    × (r.1.result_queue ≡ (worker_at long_tid).result_queue)
    × (r.1.executed ≡ [])
    × (r.1.item.state ≡ executing)
unfolding byte_length
run_rounds-too_long_example =
    run_rounds-too_long worker_round [] (task_of long_tid) long_tid [] (worker_at long_tid) refl
      refl refl refl

abbrev controller : ControllerConfig
controller = record {
  fqdn = codes "node-1";
  max_num_request_retries = 2;
  import_class = import_class;
}

abbrev silent_round : ControllerRound
silent_round = record {
  workers = record { is_alive = true; state = ready } ∷ [];
  late_results = [];
  response = none;
  second_response = none;
}

abbrev after_one : ControllerState
after_one = record {
  run_condition = true;
  request_retry_count = 1;
  task_queue = SharedQueue.empty;
  result_queue = record { items = codes "7" ∷ [] };
  actions = [];
}

run-gives_up_example :
    (run controller (silent_round ∷ silent_round ∷ []) after_one).run_condition ≡ false
unfolding found_ready_worker
run-gives_up_example =
    run-gives_up controller b'n' (codes "ode-1") 1 silent_round (silent_round ∷ []) after_one refl
      refl refl ((refl, refl, refl), ((refl, refl, refl), tt))

abbrev process : ℤ → PidControl.Process
process pid = record {
  pid = Int.format pid;
  dir_exists = true;
  timestamp = codes "2023-01-01 00:00:00";
  check_process_exits = λ p. true;
}

lock-excludes_example :
    (PidControl.lock (process (pos 41)) none ≡ (ok true, PidControl.held (process (pos 41))))
    × (PidControl.lock (process (pos 42)) (PidControl.held (process (pos 41)))
        ≡ (ok false, PidControl.held (process (pos 41))))
    × (PidControl.unlock (process (pos 42)) (PidControl.held (process (pos 41)))
        ≡ (ok tt, PidControl.held (process (pos 41))))
    × (PidControl.lock (process (pos 41)) (PidControl.held (process (pos 41)))
        ≡ (err runtime_error, PidControl.held (process (pos 41))))
    × (PidControl.unlock (process (pos 41)) (PidControl.held (process (pos 41))) ≡ (ok tt, none))
unfolding Int.format
lock-excludes_example =
    PidControl.lock-excludes 41 (process (pos 41)) (process (pos 42)) refl refl refl refl

abbrev no_metrics : Processor
no_metrics = record { error_metric = false; check_metrics = [] }

process-checked_example :
    let r = process_message (to_string (checked false (codes "hebe") (pos 0) (pos 7))) no_metrics in
    (r.0 ≡ ok tt)
    × (r.1.error_metric ≡ false)
    × (metric (codes "hebe") (pos 0) (pos 7) r.1.check_metrics ≡ (
        if is_metric (codes "hebe") (pos 0) (pos 7) (codes "hebe") (pos 0) (pos 7)
        then some (metric_value false)
        else metric (codes "hebe") (pos 0) (pos 7) []))
process-checked_example =
    process-checked false (codes "hebe") (pos 0) (pos 7) no_metrics (codes "hebe") (pos 0) (pos 7)
      refl (omega arith)
