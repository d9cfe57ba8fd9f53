-- ===== src/Master/State.antt =====
-- The variables of the master's loop (cyclone-master.py), and what it reads from outside in one
-- round. Times are whole seconds, as `int(time.time())` gives them, and the float
-- `controller_timeout` is counted in milliseconds.
use cyclone_distributed_task.Prelude.{ℕ, Bool, true, Option, Text, [], option_eq, text_eq}
use cyclone_distributed_task.Py.Dict.{Dict}
use cyclone_distributed_task.Task.Object.{Task}
use cyclone_distributed_task.Ctrl.SharedQueue
use cyclone_distributed_task.Ctrl.SharedQueue.{SharedQueue}
use cyclone_distributed_task.Ctrl.TaskStatus.{TaskStatusItem}

-- conf/master_config_file_reader.py, as far as the loop reads it
pub record Config : Type 0 where
  pub controller_timeout_ms : ℕ
  pub controller_wait_duration : ℕ
  pub task_resend_timeout : ℕ

-- `TASK_DISTRIBUTION`, `run_flag` and `error_count` count among the variables.
pub record MasterState : Type 0 where
  pub task_distribution : Bool
  pub controller_heartbeat_dict : Dict Text ℕ
  pub task_status_dict : Dict (Option Text) TaskStatusItem
  pub task_queue : SharedQueue Task
  pub result_queue : SharedQueue Text
  pub controller_wait_duration : ℕ
  pub error_count : ℕ
  pub run_flag : Bool

abbrev pub start : Config → MasterState
start c = record {
  task_distribution = true;
  controller_heartbeat_dict = [];
  task_status_dict = [];
  task_queue = SharedQueue.empty;
  result_queue = SharedQueue.empty;
  controller_wait_duration = c.controller_wait_duration;
  error_count = 0;
  run_flag = true;
}

-- One round: the time at its start, what `recv_string` returned, the times at which the handlers
-- look at the clock, whether the lock of the task queue was got within its timeout, and whether the
-- generator's process is alive.
pub record Round : Type 0 where
  pub last_exec_timestamp : ℕ
  pub recv_data : Option Text
  pub heartbeat_time : ℕ
  pub status_time : ℕ
  pub is_locked : Bool
  pub generator_alive : Bool
