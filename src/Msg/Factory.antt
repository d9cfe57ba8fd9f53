-- ===== src/Msg/Factory.antt =====
-- msg/message_factory.py
use cyclone_distributed_task.Prelude.{
  ◌==◌, text_eq, nat_eq, ◌&&◌, Text, is_nil, length, nat_beq, if◌then◌else◌,
}
use cyclone_distributed_task.Py.Result.{Result, err, runtime_error, ◌>>=◌, ◌>>◌, raise_if, item_at}
use cyclone_distributed_task.Py.Str.{split}
use cyclone_distributed_task.Msg.Message.{
  Message, field_separator, first_part, task_req, task_fin, ack, wait_cmd, heartbeat_type, exit_cmd,
  task_ass, new_task_request, new_task_finished, new_acknowledge, new_wait_command, new_heartbeat,
  new_exit_command,
}
use cyclone_distributed_task.Msg.TaskAssign.{from_text}

-- `MessageFactory.create`
unfoldable pub create : Text → Result Message
create message = do
  raise_if (is_nil message) runtime_error
  let message_items = split field_separator message
  let msg_type = first_part message_items
  let len_message_items = length message_items
  if msg_type == task_req && nat_beq len_message_items 2
      then (do sender ← item_at message_items 1; new_task_request sender)
      else if msg_type == task_fin && nat_beq len_message_items 3
      then (do
        sender ← item_at message_items 1
        tid ← item_at message_items 2
        new_task_finished sender tid)
      else if msg_type == ack && nat_beq len_message_items 1
      then new_acknowledge
      else if msg_type == wait_cmd && nat_beq len_message_items 2
      then (do duration ← item_at message_items 1; new_wait_command duration)
      else if msg_type == heartbeat_type && nat_beq len_message_items 2
      then (do sender ← item_at message_items 1; new_heartbeat sender)
      else if msg_type == exit_cmd && nat_beq len_message_items 1
      then new_exit_command
      else if msg_type == task_ass
      then from_text message
      else err runtime_error
