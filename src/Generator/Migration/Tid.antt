-- ===== src/Generator/Migration/Tid.antt =====
-- task/generator/lustre_ost_migration_task_generator.py: the id of a task that migrates a file from
-- one OST to another.
use cyclone_distributed_task.Prelude.{◌++◌, ◌∷◌, Text, ℤ, ◌≡◌, arith}
use cyclone_distributed_task.Py.Result.{Result, ok, ◌>>=◌, item_at}
use cyclone_distributed_task.Py.Str.{split, Lacks, split-append_sep, split-Lacks}
use cyclone_distributed_task.Py.Int
use cyclone_distributed_task.Py.Int.RoundTrip.{format-Lacks, parse-format}

-- `f"{source_ost}:{target_ost}"`
unfoldable pub tid_of : ℤ → ℤ → Text
tid_of source target = Int.format source ++ b':' ∷ Int.format target

-- The two OSTs of an id
unfoldable pub parse_tid : Text → Result (ℤ × ℤ)
parse_tid finished_tid = do
  let split_result = split b':' finished_tid
  first ← item_at split_result 0
  source ← Int.parse first
  second ← item_at split_result 1
  target ← Int.parse second
  ok (source, target)

no_colon : (z : ℤ) → Lacks b':' (Int.format z)
no_colon z = format-Lacks b':' z (omega arith) (omega arith)

-- The id of a task names the two OSTs that it was made for.
pub parse_tid-tid_of : (source target : ℤ) → parse_tid (tid_of source target) ≡ ok (source, target)
unfolding parse_tid tid_of
parse_tid-tid_of source target = simp (
  split-append_sep b':' (Int.format source) (Int.format target) (no_colon source),
  split-Lacks b':' (Int.format target) (no_colon target),
  parse-format source,
  parse-format target,
)
