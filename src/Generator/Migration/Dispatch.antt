-- ===== src/Generator/Migration/Dispatch.antt =====
-- task/generator/lustre_ost_migration_task_generator.py: the loop of `run`, without the waiting.
use cyclone_distributed_task.Prelude.{
  ℕ, zero, suc, Bool, none, some, List, [], ◌∷◌, ◌++◌, Text, ℤ, int_eq, drop, length, leb, nat_beq,
  if◌then◌else◌,
}
use cyclone_distributed_task.Py.Result.{Result, Result, ok, err, index_error}
use cyclone_distributed_task.Py.Exec.{lift, pure, lift, gets, modify, ◌>>=◌, ◌>>◌}
use cyclone_distributed_task.Py.Dict.{put, item, keys}
use cyclone_distributed_task.Ctrl.SharedQueue
use cyclone_distributed_task.Task.Object.{Task}
use cyclone_distributed_task.Task.Classes.{set_source_ost, set_target_ost, set_filename}
use cyclone_distributed_task.Generator.Migration.State.{
  blocked, is_ready, LustreOstMigrateItem, Settings, State,
}
use cyclone_distributed_task.Generator.Migration.Ost.{
  Handler, release_source, release_target, FillLevels, update_levels, deallocate_empty_ost_caches,
  update_ost_fill_level_dict, init_ost_target_state_dict,
}
use cyclone_distributed_task.Generator.Migration.Tid.{tid_of, parse_tid}
use cyclone_distributed_task.Generator.Migration.Files.{InputFile, process_input_files}

-- The task for an item: `task_skeleton` with an id, and with the attributes outside local mode
unfoldable pub fill_task : Settings → Task → ℤ → ℤ → LustreOstMigrateItem → Result Task
fill_task c skeleton source target item =
    let task = record skeleton { tid = some (tid_of source target) } in
    if c.local_mode
    then ok task
    else set_filename (set_target_ost (set_source_ost task source) target) item.filename

-- The rest of a list, and its last item: `pop()`
unfoldable pub pop_last : {A : Type 0} → A → List A → List A × A
pop_last x [] = ([], x)
pop_last x (y ∷ ys) = let (rest, last) = pop_last y ys in (x ∷ rest, last)

-- `self._task_queue.push(task)`, and both OSTs become blocked
unfoldable pub push_task : ℤ → ℤ → Task → State → State
push_task source target task s = record s {
  task_queue = record { items = s.task_queue.items ++ task ∷ [] };
  ost_source_state_dict = put source blocked s.ost_source_state_dict;
  ost_target_state_dict = put target blocked s.ost_target_state_dict;
}

-- The cache without its last item stays behind, and the task of the item is pushed.
unfoldable pub push_filled : ℤ → ℤ → List LustreOstMigrateItem → Result Task → Handler (Unit {0})
push_filled source target rest filled = do
  modify (λ s. record s { ost_cache_dict = put source rest s.ost_cache_dict })
  task ← lift filled
  modify (push_task source target task)

unfoldable pub dispatch_item :
    Settings → Task → ℤ → ℤ → LustreOstMigrateItem → List LustreOstMigrateItem → Handler (Unit {0})
dispatch_item c skeleton source target first cache =
    let (rest, item) = pop_last first cache in
    push_filled source target rest (fill_task c skeleton source target item)

advance_target : Handler (Unit {0})
advance_target =
    modify (λ s. record s { next_target_ost_key_index = suc s.next_target_ost_key_index })

-- The loop over the target OSTs behind the index; it returns `counter_checked_target_osts`.
unfoldable pub search_target :
    Settings → Task → ℤ → LustreOstMigrateItem → List LustreOstMigrateItem → List ℤ → ℕ → Handler ℕ
unfolding advance_target
search_target c skeleton source first cache [] counter = pure counter
search_target c skeleton source first cache (target ∷ targets) counter = do
  advance_target
  d ← gets (λ s. s.ost_target_state_dict)
  state ← lift (item target d)
  if is_ready state
      then (do dispatch_item c skeleton source target first cache; pure (suc counter))
      else search_target c skeleton source first cache targets (suc counter)

wrap_target : List ℤ → Handler (Unit {0})
wrap_target targets = modify (λ s. record s {
  next_target_ost_key_index =
      if nat_beq s.next_target_ost_key_index (length targets)
      then 0
      else s.next_target_ost_key_index;
})

-- `if ost_cache:`
unfoldable pub with_cache : Settings → Task → List ℤ → ℤ → List LustreOstMigrateItem → ℕ → Handler ℕ
unfolding wrap_target
with_cache c skeleton targets source [] counter = pure counter
with_cache c skeleton targets source (first ∷ cache) counter = do
  i ← gets (λ s. s.next_target_ost_key_index)
  checked ← search_target c skeleton source first cache (drop i targets) counter
  wrap_target targets
  pure checked

-- One round of the loop over the source OSTs
unfoldable pub try_source : Settings → Task → List ℤ → ℤ → ℕ → Handler ℕ
try_source c skeleton targets source counter = do
  s ← gets (λ s. s)
  state ← lift (item source s.ost_source_state_dict)
  if is_ready state
      then (do
        cache ← lift (item source s.ost_cache_dict)
        with_cache c skeleton targets source cache counter)
      else pure counter

advance_source : Handler (Unit {0})
advance_source =
    modify (λ s. record s { next_source_ost_key_index = suc s.next_source_ost_key_index })

-- The loop over the source OSTs behind the index
unfoldable pub try_sources : Settings → Task → List ℤ → List ℤ → ℕ → Handler (Unit {0})
unfolding advance_source
try_sources c skeleton targets [] counter = pure tt
try_sources c skeleton targets (source ∷ sources) counter =
    if nat_beq counter (length targets) then pure tt else (do
      advance_source
      checked ← try_source c skeleton targets source counter
      try_sources c skeleton targets sources checked)

restart_sources : Handler (Unit {0})
restart_sources = modify (λ s. record s {
  next_source_ost_key_index =
      if leb (length s.source_ost_key_list) s.next_source_ost_key_index
      then 0
      else s.next_source_ost_key_index;
})

-- The first part of a round of the loop: tasks for the ready OSTs
unfoldable pub dispatch : Settings → Task → List ℤ → Handler (Unit {0})
unfolding restart_sources
dispatch c skeleton targets = do
  restart_sources
  s ← gets (λ s. s)
  try_sources c skeleton targets (drop s.next_source_ost_key_index s.source_ost_key_list) 0

-- The ids of the finished task free its OSTs.
unfoldable pub finish_tid : Text → Handler (Unit {0})
finish_tid finished_tid = do
  osts ← lift (parse_tid finished_tid)
  release_source osts.0
  release_target osts.1

-- `finished_tid = self._result_queue.pop()` where the queue is not empty
pop_result : Handler Text
pop_result s = elim (SharedQueue.pop s.result_queue) [
  | none ↦ (err index_error, s)
  | some (tid, q) ↦ (ok tid, record s { result_queue = q })
]

-- The second part: the ids in the result queue. `fuel` is the number of rounds that are looked at.
unfoldable pub collect : ℕ → Handler (Unit {0})
unfolding pop_result
collect zero s = (ok tt, s)
collect (suc fuel) s =
    if SharedQueue.is_empty s.result_queue
    then (ok tt, s)
    else (do tid ← pop_result; finish_tid tid; collect fuel) s

-- What one round of the loop reads from outside: which of the thresholds have passed, the fill
-- levels, and the files in the input directory
pub record Round : Type 0 where
  pub is_update_fill_level_due : Bool
  pub is_reload_files_due : Bool
  pub is_print_caches_due : Bool
  pub fill_levels : FillLevels
  pub files : Result (List InputFile)

-- The third part: what is done at times
unfoldable pub periodic : Settings → Round → Handler (Unit {0})
periodic c r = do
  if r.is_update_fill_level_due then update_levels c r.fill_levels else pure tt
  if r.is_reload_files_due then process_input_files c r.files else pure tt
  if r.is_print_caches_due then deallocate_empty_ost_caches else pure tt

unfoldable pub round : Settings → Task → List ℤ → Round → Handler (Unit {0})
round c skeleton targets r = do
  dispatch c skeleton targets
  n ← gets (λ s. length s.result_queue.items)
  collect n
  periodic c r

-- `run` before the loop: it returns `target_ost_key_list`.
unfoldable pub start : Settings → FillLevels → Result (List InputFile) → Handler (List ℤ)
start c levels files = do
  update_ost_fill_level_dict c levels
  init_ost_target_state_dict c
  process_input_files c files
  gets (λ s. keys s.ost_target_state_dict)
