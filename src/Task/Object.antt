-- ===== src/Task/Object.antt =====
-- task/base_task.py, and what `inspect` and `getattr` read of a task object and its class.
use cyclone_distributed_task.Prelude.{
  suc, text_eq, Bool, true, false, Option, none, some, List, Text, ℤ, codes, length, nat_beq,
  if◌then◌else◌,
}
use cyclone_distributed_task.Py.Result.{
  Result, ok, err, type_error, value_error, attribute_error, ◌>>=◌,
}
use cyclone_distributed_task.Py.Dict.{Dict, get, put}
use cyclone_distributed_task.Py.Int

-- The values that the attributes of a task hold. A float carries its `repr`.
pub data Value : Type 0 where
  none_value : Value
  text : Text → Value
  int : ℤ → Value
  bool : Bool → Value
  float : Text → Value

-- `str(value)`
unfoldable pub str : Value → Text
unfolding Int.format
str none_value = codes "None"
str (text s) = s
str (int z) = Int.format z
str (bool true) = codes "True"
str (bool false) = codes "False"
str (float s) = s

-- A class: `__module__`, `__name__`, the names of the class and of its first bases up to `object`,
-- the parameters of `__init__` with `self`, and the body of `__init__`, which assigns attributes.
pub record TaskClass : Type 0 where
  pub class_module : Text
  pub class_name : Text
  pub first_bases : List Text
  pub init_args : List Text
  pub init : List Text → Result (Dict Text Value)

pub record Task : Type 0 where
  pub class : TaskClass
  pub tid : Option Text
  pub attributes : Dict Text Value

-- `dynamic_class(*items)`: Python refuses another number of arguments than `__init__` takes.
-- `BaseTask.__init__` sets `_tid` to `None`.
unfoldable pub instantiate : TaskClass → List Text → Result Task
instantiate class items =
    if nat_beq (suc (length items)) (length class.init_args)
    then (do
      attributes ← class.init items
      ok (record { class = class; tid = none; attributes = attributes }))
    else err type_error

-- The setter of `tid`: `None` is refused, and what is no text is turned into one.
unfoldable pub set_tid : Task → Value → Result Task
unfolding str
set_tid task none_value = err value_error
set_tid task (text s) = ok (record task { tid = some s })
set_tid task v = ok (record task { tid = some (str v) })

-- `getattr(task, name)`
unfoldable pub get_attribute : Task → Text → Result Value
unfolding get
get_attribute task name = elim (get name task.attributes) [
  | none ↦ err attribute_error
  | some v ↦ ok v
]

-- `task.name = value`, for an attribute with no setter of its own
unfoldable pub set_attribute : Task → Text → Value → Task
unfolding put
set_attribute task name v = record task { attributes = put name v task.attributes }
