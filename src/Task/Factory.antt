-- ===== src/Task/Factory.antt =====
-- task/task_factory.py. `import_class` stands for `importlib.import_module` and `getattr`.
use cyclone_distributed_task.Prelude.{
  ℕ, suc, ◌==◌, text_eq, not, Option, none, some, List, [], ◌∷◌, Text, codes, length, take, ltb,
  nat_beq, if◌then◌else◌,
}
use cyclone_distributed_task.Py.Result.{
  Result, ok, err, runtime_error, ◌>>=◌, ◌>>◌, raise_if, item_at,
}
use cyclone_distributed_task.Py.Dict.{Dict, keys, values}
use cyclone_distributed_task.Py.Str.{split}
use cyclone_distributed_task.Msg.Message.{Message, field_separator}
use cyclone_distributed_task.Task.Object.{TaskClass, Task, text, instantiate, set_tid}

-- task/xml/task_xml_reader.py: `TaskXmlInfo`
pub record TaskXmlInfo : Type 0 where
  pub class_module : Text
  pub class_name : Text
  pub class_properties : Dict Text Text

-- `_create_task`: one branch for each number of items up to fifteen
unfoldable pub create_task : TaskClass → List Text → ℕ → Result Task
unfolding instantiate
create_task dynamic_class body_items len_body_items =
    if ltb 15 len_body_items
    then err runtime_error
    else instantiate dynamic_class (take len_body_items body_items)

-- the loop over the names of the properties, beside `arg_index`
check_properties : List Text → ℕ → List Text → Result (Unit {0})
check_properties init_args arg_index [] = ok tt
check_properties init_args arg_index (property_name ∷ rest) = do
  arg ← item_at init_args arg_index
  raise_if (not (property_name == arg)) runtime_error
  check_properties init_args (suc arg_index) rest

check_self : List Text → Result (Unit {0})
check_self [] = ok tt
check_self (arg ∷ args) = raise_if (not (arg == codes "self")) runtime_error

abbrev pub body_items_of : Option Text → List Text
body_items_of none = []
body_items_of (some []) = []
body_items_of (some (c ∷ s)) = split field_separator (c ∷ s)

module _ (import_class : Text → Text → Result TaskClass) where
  unfoldable pub create_from_xml_info : TaskXmlInfo → Result Task
  unfolding check_self check_properties
  create_from_xml_info xml_info = do
    dynamic_class ← import_class xml_info.class_module xml_info.class_name
    check_self dynamic_class.init_args
    let len_body_items = length xml_info.class_properties
    raise_if (not (nat_beq (length dynamic_class.init_args) (suc len_body_items))) runtime_error
    check_properties dynamic_class.init_args 1 (keys xml_info.class_properties)
    create_task dynamic_class (values xml_info.class_properties) len_body_items

  unfoldable pub create_from_message : Message → Result Task
  unfolding set_tid
  create_from_message message = do
    let header_items = split field_separator message.header
    raise_if (not (nat_beq (length header_items) 4)) runtime_error
    task_module ← item_at header_items 1
    task_class ← item_at header_items 2
    task_id ← item_at header_items 3
    let body_items = body_items_of message.body
    dynamic_class ← import_class task_module task_class
    task ← create_task dynamic_class body_items (length body_items)
    set_tid task (text task_id)
