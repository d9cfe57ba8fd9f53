-- ===== src/Tests/Trip.antt =====
-- The way of a task through the parts at a concrete task and concrete states.
use cyclone_distributed_task.Prelude.{refl, true, false, none, [], codes, arith, pos}
use cyclone_distributed_task.Py.Dict.{get}
use cyclone_distributed_task.Task.Object.{Task}
use cyclone_distributed_task.Task.Classes.{import_class}
use cyclone_distributed_task.Controller.Worker.{ready, byte_length, returns}
use cyclone_distributed_task.Master.State.{Config, start}
use cyclone_distributed_task.Trip.{Scene, Travels, task-Travels}
use cyclone_distributed_task.Task.MigrateTransfer.{
  migrate_task, migrate-IsTransferable, migrate-IsRebuilt,
}

abbrev migration : Task
migration = migrate_task (codes "3:12") (codes "/lustre/f") (pos 3) (pos 12) true false true

abbrev config : Config
config = record {
  controller_timeout_ms = 60000;
  controller_wait_duration = 1;
  task_resend_timeout = 100;
}

abbrev scene : Scene
scene = record {
  master_config = config;
  request_round = record {
    last_exec_timestamp = 1000;
    recv_data = none;
    heartbeat_time = 1000;
    status_time = 1000;
    is_locked = true;
    generator_alive = true;
  };
  report_round = record {
    last_exec_timestamp = 1000;
    recv_data = none;
    heartbeat_time = 1001;
    status_time = 1002;
    is_locked = true;
    generator_alive = true;
  };
  master = start config;
  controller_config = record {
    fqdn = codes "node-1";
    max_num_request_retries = 3;
    import_class = import_class;
  };
  controller_round = record {
    workers = [];
    late_results = [];
    response = none;
    second_response = none;
  };
  controller = record {
    run_condition = true;
    request_retry_count = 1;
    task_queue = record { items = [] };
    result_queue = record { items = [] };
    actions = [];
  };
  worker_round_input = record {
    begin_time = 1000;
    end_time = 1001;
    is_shut_down = false;
    execute = λ _. returns;
  };
  worker = record {
    item = record { state = ready; tid = []; timestamp = 0 };
    task_queue = record { items = [] };
    result_queue = record { items = [] };
    run_flag = true;
    executed = [];
  };
}

task-Travels_example : Travels scene (codes "node-1") (codes "3:12") migration []
unfolding get byte_length
task-Travels_example =
    task-Travels scene 110 51 (codes "ode-1") (codes ":12") (codes "self") _ _ migration [] refl
      (omega arith) refl
      (migrate-IsTransferable (codes "3:12") (codes "/lustre/f") (pos 3) (pos 12) true false true
        (λ e. cc e) (omega arith) (λ e. cc e) (omega arith))
      (migrate-IsRebuilt (codes "3:12") (codes "/lustre/f") (pos 3) (pos 12) true false true)
      (record { distributes = refl; locked = refl; due = λ h. h; idle = refl; no_results = refl })
      refl
