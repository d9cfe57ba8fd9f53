-- ===== src/Msg/TaskAssign.antt =====
-- msg/task_assign.py: a task on its way to a controller. The message is made from the text that
-- a controller receives or from the task that the master sends.
use cyclone_distributed_task.Prelude.{
  ◌+◌, ◌==◌, text_eq, Bool, true, false, not, Option, none, some, List, [], ◌∷◌, ◌++◌, Text, codes,
  is_nil, length, drop, ltb, if◌then◌else◌,
}
use cyclone_distributed_task.Py.Result.{Result, ok, runtime_error, ◌>>=◌, ◌>>◌, raise_if, item_at}
use cyclone_distributed_task.Py.Str.{split, join, contains}
use cyclone_distributed_task.Task.Object.{TaskClass, Task, str, get_attribute}
use cyclone_distributed_task.Task.Factory.{create_from_message}
use cyclone_distributed_task.Msg.Message.{
  base_message, task_assign, Message, init, field_separator, task_ass, is_unset,
}

abbrev pub header_of : (task_type task_module task_class task_id : Text) → Text
header_of task_type task_module task_class task_id =
    task_type
    ++ (field_separator ∷ task_module
        ++ (field_separator ∷ task_class ++ (field_separator ∷ task_id)))

-- `TaskAssign(value)` for a text
unfoldable pub from_text : Text → Result Message
unfolding init
from_text value = do
  raise_if (is_nil value) runtime_error
  let message_items = split field_separator value
  raise_if (ltb (length message_items) 4) runtime_error
  task_type ← item_at message_items 0
  task_module ← item_at message_items 1
  task_class ← item_at message_items 2
  task_id ← item_at message_items 3
  let header = header_of task_type task_module task_class task_id
  let len_header = length header
  let rest = drop (len_header + 1) value
  let body = if ltb len_header (length value) then some rest else none
  init task_assign header body

-- `_is_inherited_from_base_task`. The loop over the bases returns in its first round, so only the
-- first bases count; the last name of such a chain is the class without bases.
unfoldable pub is_inherited_from_base_task : List Text → Bool
is_inherited_from_base_task [] = false
is_inherited_from_base_task (name ∷ []) = false
is_inherited_from_base_task (name ∷ base ∷ bases) =
    let next = is_inherited_from_base_task (base ∷ bases) in
    if name == codes "object" then false else if name == codes "BaseTask" then true else next

-- `_create_header`
unfoldable pub create_header : Task → Result Text
create_header task = do
  raise_if (not (contains (codes "task.") task.class.class_module)) runtime_error
  raise_if (is_unset task.tid) runtime_error
  ok (
      header_of task_ass task.class.class_module task.class.class_name
        (elim task.tid [ none ↦ [] | some tid ↦ tid ]))

-- `str(getattr(task, arg))` of each parameter in turn
unfoldable pub argument_texts : Task → List Text → Result (List Text)
unfolding get_attribute str
argument_texts task [] = ok []
argument_texts task (arg ∷ args) = do
  v ← get_attribute task arg
  texts ← argument_texts task args
  ok (str v ∷ texts)

-- `_create_body`: the parameters behind `self`, joined by the separator
unfoldable pub create_body : Task → Result (Option Text)
unfolding argument_texts
create_body task = elim task.class.init_args [
  | [] ↦ ok none
  | self ∷ [] ↦ ok none
  | self ∷ arg ∷ args ↦ do
    texts ← argument_texts task (arg ∷ args)
    ok (some (join field_separator texts))
]

-- `TaskAssign(value)` for a task object
unfoldable pub from_task : Task → Result Message
unfolding init
from_task task = do
  raise_if (not (is_inherited_from_base_task task.class.first_bases)) runtime_error
  header ← create_header task
  body ← create_body task
  init task_assign header body

-- `to_task`
unfoldable pub to_task : (Text → Text → Result TaskClass) → Message → Result Task
unfolding init
to_task import_class m = do
  message ← init base_message m.header m.body
  create_from_message import_class message
