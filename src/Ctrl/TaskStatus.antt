-- ===== src/Ctrl/TaskStatus.antt =====
-- ctrl/task_status_item.py
use cyclone_distributed_task.Prelude.{ℕ, Bool, true, false, Option, Text}

pub data TaskState : Type 0 where
  assigned finished : TaskState

abbrev pub is_finished : TaskState → Bool
is_finished finished = true
is_finished assigned = false

abbrev pub is_assigned : TaskState → Bool
is_assigned finished = false
is_assigned assigned = true

pub record TaskStatusItem : Type 0 where
  pub tid : Option Text
  pub state : TaskState
  pub controller : Text
  pub timestamp : ℕ
