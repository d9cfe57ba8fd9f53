-- ===== src/Msg/Message.antt =====
-- msg/base_message.py, msg/message_type.py and the message classes with no parser of their own.
-- A message object is the fields of its base class and a tag for its class.
use cyclone_distributed_task.Prelude.{
  ℕ, suc, Bool, true, Option, none, some, List, [], ◌∷◌, ◌++◌, Text, ℤ, codes, is_nil,
}
use cyclone_distributed_task.Py.Result.{
  Result, ok, err, runtime_error, attribute_error, type_error, ◌>>◌, raise_if, item_at,
}
use cyclone_distributed_task.Py.Str.{find, split}
use cyclone_distributed_task.Py.Int

abbrev pub field_separator : ℕ
field_separator = b'|'

abbrev pub task_req : Text
task_req = codes "TASK_REQ"

abbrev pub task_ass : Text
task_ass = codes "TASK_ASS"

abbrev pub wait_cmd : Text
wait_cmd = codes "WAIT_CMD"

abbrev pub task_fin : Text
task_fin = codes "TASK_FIN"

abbrev pub ack : Text
ack = codes "ACK"

abbrev pub heartbeat_type : Text
heartbeat_type = codes "HEARTBEAT"

abbrev pub exit_cmd : Text
exit_cmd = codes "EXIT_CMD"

pub data Kind : Type 0 where
  base_message task_request task_assign wait_command task_finished acknowledge heartbeat : Kind
  exit_command : Kind

pub record Message : Type 0 where
  pub kind : Kind
  pub header : Text
  pub body : Option Text

-- `not text`, for a `str` or `None`
abbrev pub is_unset : Option Text → Bool
is_unset none = true
is_unset (some s) = is_nil s

-- the `_validate` methods
validate : Kind → Option Text → Result (Unit {0})
validate task_request body = raise_if (is_unset body) runtime_error
validate task_finished body = raise_if (is_unset body) runtime_error
validate wait_command body = raise_if (is_unset body) runtime_error
validate heartbeat body = raise_if (is_unset body) runtime_error
validate _ body = ok tt

-- `BaseMessage.__init__`
unfoldable pub init : Kind → Text → Option Text → Result Message
unfolding validate
init kind header body = do
  raise_if (is_nil header) runtime_error
  validate kind body
  ok (record { kind = kind; header = header; body = body })

abbrev pub first_part : List Text → Text
first_part [] = []
first_part (p ∷ ps) = p

-- `BaseMessage.type`: the text up to a separator that is not the first character
unfoldable pub type_of : Message → Text
unfolding find
type_of m = elim (find field_separator m.header) [
  | some (suc i) ↦ first_part (split field_separator m.header)
  | _ ↦ m.header
]

abbrev with_body : Text → Option Text → Text
with_body header none = header
with_body header (some []) = header
with_body header (some (c ∷ s)) = header ++ (field_separator ∷ c ∷ s)

-- `BaseMessage.to_string`
unfoldable pub to_string : Message → Text
to_string m = with_body m.header m.body

-- The constructors `TaskRequest(sender)`, …
unfoldable pub new_task_request : Text → Result Message
unfolding init
new_task_request sender = do
  raise_if (is_nil sender) runtime_error
  init task_request task_req (some sender)

unfoldable pub new_heartbeat : Text → Result Message
unfolding init
new_heartbeat sender = do
  raise_if (is_nil sender) runtime_error
  init heartbeat heartbeat_type (some sender)

unfoldable pub new_task_finished : Text → Text → Result Message
unfolding init
new_task_finished sender tid = do
  raise_if (is_nil sender) runtime_error
  raise_if (is_nil tid) runtime_error
  init task_finished task_fin (some (sender ++ (field_separator ∷ tid)))

unfoldable pub new_acknowledge : Result Message
unfolding init
new_acknowledge = init acknowledge ack (some [])

unfoldable pub new_exit_command : Result Message
unfolding init
new_exit_command = init exit_command exit_cmd (some [])

-- `WaitCommand(duration)` calls `str` on a text or a number; the text is passed here.
unfoldable pub new_wait_command : Text → Result Message
unfolding init
new_wait_command duration = init wait_command wait_cmd (some duration)

part_of_body : Option Text → ℕ → Result Text
part_of_body none i = err attribute_error
part_of_body (some body) i = item_at (split field_separator body) i

-- `return self.body`; `_validate` has refused `None` in the classes that have this property.
whole_body : Option Text → Result Text
whole_body none = err attribute_error
whole_body (some body) = ok body

-- The property `sender`, which three classes have.
unfoldable pub sender : Message → Result Text
unfolding part_of_body whole_body
sender m = elim m.kind [
  | task_request ↦ whole_body m.body
  | heartbeat ↦ whole_body m.body
  | task_finished ↦ part_of_body m.body 0
  | _ ↦ err attribute_error
]

-- `TaskFinished.tid`
unfoldable pub tid : Message → Result Text
unfolding part_of_body
tid m = elim m.kind [ task_finished ↦ part_of_body m.body 1 | _ ↦ err attribute_error ]

int_of_body : Option Text → Result ℤ
unfolding Int.parse
int_of_body none = err type_error
int_of_body (some body) = Int.parse body

-- `WaitCommand.duration`
unfoldable pub duration : Message → Result ℤ
unfolding int_of_body
duration m = elim m.kind [ wait_command ↦ int_of_body m.body | _ ↦ err attribute_error ]
