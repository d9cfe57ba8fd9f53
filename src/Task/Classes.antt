-- ===== src/Task/Classes.antt =====
-- The task classes with short constructors: task/empty_task.py, task/benchmark_task.py,
-- task/poison_pill.py and task/lustre_ost_migrate_task.py. The calls of `LfsUtils` in `execute`
-- belong to a library outside of the repository.
use cyclone_distributed_task.Prelude.{
  ℕ, ◌+◌, ◌==◌, text_eq, Bool, true, false, ◌&&◌, ◌||◌, some, List, [], ◌∷◌, map, Text, ℤ, codes,
  is_nil, leb, if◌then◌else◌,
}
use cyclone_distributed_task.Py.Result.{
  Result, ok, err, runtime_error, value_error, type_error, import_error, attribute_error, ◌>>=◌,
  ◌>>◌, raise_if,
}
use cyclone_distributed_task.Py.Dict.{Dict}
use cyclone_distributed_task.Py.Int
use cyclone_distributed_task.Task.Object.{Value, text, int, bool, TaskClass, Task, set_attribute}

no_attributes : List Text → Result (Dict Text Value)
no_attributes items = ok []

unfoldable pub empty_task : TaskClass
unfolding no_attributes
empty_task = record {
  class_module = codes "task.empty_task";
  class_name = codes "EmptyTask";
  first_bases = codes "EmptyTask" ∷ codes "BaseTask" ∷ codes "object" ∷ [];
  init_args = codes "self" ∷ [];
  init = no_attributes;
}

unfoldable pub benchmark_task : TaskClass
unfolding no_attributes
benchmark_task = record {
  class_module = codes "task.benchmark_task";
  class_name = codes "BenchmarkTask";
  first_bases = codes "BenchmarkTask" ∷ codes "BaseTask" ∷ codes "object" ∷ [];
  init_args = codes "self" ∷ [];
  init = no_attributes;
}

poison_pill_class : TaskClass
unfolding no_attributes
poison_pill_class = record {
  class_module = codes "task.poison_pill";
  class_name = codes "PoisonPill";
  first_bases = codes "PoisonPill" ∷ codes "BaseTask" ∷ codes "object" ∷ [];
  init_args = codes "self" ∷ [];
  init = no_attributes;
}

-- `PoisonPill()`, whose constructor sets the id
unfoldable pub poison_pill : Task
unfolding poison_pill_class
poison_pill = record {
  class = poison_pill_class;
  tid = some (codes "POISON_PILL");
  attributes = [];
}

lower : ℕ → ℕ
lower c = if leb b'A' c && leb c b'Z' then c + 32 else c

is_one_of : Text → List Text → Bool
is_one_of s [] = false
is_one_of s (t ∷ ts) = s == t || is_one_of s ts

-- `bool(distutils.util.strtobool(s))`
unfoldable pub strtobool : Text → Result Bool
unfolding lower is_one_of
strtobool s =
    let v = map lower s in
    if is_one_of v (map codes ("y" ∷ "yes" ∷ "t" ∷ "true" ∷ "on" ∷ "1" ∷ []))
    then ok true
    else if is_one_of v (map codes ("n" ∷ "no" ∷ "f" ∷ "false" ∷ "off" ∷ "0" ∷ []))
    then ok false
    else err value_error

-- `if idx: self.source_ost = idx else: self._source_ost = ''`
unfoldable pub int_or_blank : Text → Result Value
int_or_blank [] = ok (text [])
int_or_blank (c ∷ s) = do z ← Int.parse (c ∷ s); ok (int z)

unfoldable pub migrate_attributes : Text → Value → Value → Bool → Bool → Bool → Dict Text Value
migrate_attributes filename source target direct_io block skip =
    (codes "filename", text filename)
    ∷ (codes "source_ost", source)
    ∷ (codes "target_ost", target)
    ∷ (codes "direct_io", bool direct_io)
    ∷ (codes "block", bool block)
    ∷ (codes "skip", bool skip)
    ∷ []

-- `LustreOstMigrateTask.__init__`
unfoldable pub migrate_init : List Text → Result (Dict Text Value)
unfolding int_or_blank
migrate_init (filename ∷ source ∷ target ∷ direct_io ∷ block ∷ skip ∷ []) = do
  source_ost ← int_or_blank source
  target_ost ← int_or_blank target
  direct ← strtobool direct_io
  blocking ← strtobool block
  skipping ← strtobool skip
  ok (migrate_attributes filename source_ost target_ost direct blocking skipping)
migrate_init _ = err type_error

unfoldable pub migrate_class : TaskClass
migrate_class = record {
  class_module = codes "task.lustre_ost_migrate_task";
  class_name = codes "LustreOstMigrateTask";
  first_bases = codes "LustreOstMigrateTask" ∷ codes "BaseTask" ∷ codes "object" ∷ [];
  init_args =
      codes "self"
      ∷ codes "filename"
      ∷ codes "source_ost"
      ∷ codes "target_ost"
      ∷ codes "direct_io"
      ∷ codes "block"
      ∷ codes "skip"
      ∷ [];
  init = migrate_init;
}

-- The setters `source_ost`, `target_ost` and `filename`, as a task generator calls them.
unfoldable pub set_source_ost : Task → ℤ → Task
unfolding set_attribute
set_source_ost task idx = set_attribute task (codes "source_ost") (int idx)

unfoldable pub set_target_ost : Task → ℤ → Task
unfolding set_attribute
set_target_ost task idx = set_attribute task (codes "target_ost") (int idx)

unfoldable pub set_filename : Task → Text → Result Task
unfolding set_attribute
set_filename task filename = do
  raise_if (is_nil filename) runtime_error
  ok (set_attribute task (codes "filename") (text filename))

-- The modules of the package task with a class above.
unfoldable pub import_class : Text → Text → Result TaskClass
unfolding is_one_of
import_class task_module task_class =
    if task_module == codes "task.empty_task"
    then (if task_class == codes "EmptyTask" then ok empty_task else err attribute_error)
    else if task_module == codes "task.benchmark_task"
    then (if task_class == codes "BenchmarkTask" then ok benchmark_task else err attribute_error)
    else if task_module == codes "task.lustre_ost_migrate_task"
    then (if task_class == codes "LustreOstMigrateTask"
        then ok migrate_class
        else err attribute_error)
    else err import_error
