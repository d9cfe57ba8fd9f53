-- ===== src/Tests/Life.antt =====
-- A life of the migration generator: it starts, pushes a task, learns that its migration has ended, and collects it.
use cyclone_distributed_task.Prelude.{
  ◌≤◌, refl, true, false, none, some, List, [], ◌∷◌, codes, ℤ, pos,
}
use cyclone_distributed_task.Py.Result.{Result, ok, err, runtime_error}
use cyclone_distributed_task.Py.Int
use cyclone_distributed_task.Ctrl.SharedQueue
use cyclone_distributed_task.Py.Dict.{get, put}
use cyclone_distributed_task.Py.Str.{starts_with, contains, ends_with}
use cyclone_distributed_task.Generator.Migration.Ost.{
  update_ost_fill_level_dict, init_ost_target_state_dict, for_each, allocate_ost_caches,
  update_ost_source_state_dict, update_ost_target_state_dict, update_ost_state_dict, unlock, lock,
  release_source, release_target, release, FillLevels,
}
use cyclone_distributed_task.Generator.Migration.Files.{
  load_and_rename, process_input_files, load_input_file, load_lines, parse_line, search_pattern,
  append_item, InputFile,
}
use cyclone_distributed_task.Generator.Migration.Dispatch.{
  try_sources, try_source, with_cache, search_target, dispatch_item, push_filled, fill_task,
  push_task, pop_last, collect, finish_tid, periodic, Round, start, round, dispatch,
}
use cyclone_distributed_task.Generator.Migration.Tid.{parse_tid}
use cyclone_distributed_task.Task.Object.{Task}
use cyclone_distributed_task.Task.Classes.{benchmark_task}
use cyclone_distributed_task.Generator.Migration.State.{Settings, State}
use cyclone_distributed_task.Generator.Migration.Open.{sources, targets, Pair}
use cyclone_distributed_task.Generator.Migration.Life.{
  here, next, generator_round, migration_ends, report, Pushes, IsSound, Life, Reach,
}
use cyclone_distributed_task.Generator.Migration.Reached.{open-IsExclusive, initial, Reach-IsSound}
use cyclone_distributed_task.Generator.Migration.Booking.{count}

abbrev settings : Settings
settings = record {
  local_mode = true;
  num_osts = pos 4;
  threshold_update_fill_level = pos 10;
  threshold_reload_files = pos 10;
  threshold_print_caches = pos 10;
  ost_fill_level_threshold_source = pos 50;
  ost_fill_level_threshold_target = pos 60;
  ost_target_list = pos 2 ∷ pos 3 ∷ [];
  lfs_path = codes "/l";
}

abbrev skeleton : Task
skeleton = record { class = benchmark_task; tid = none; attributes = [] }

abbrev levels : FillLevels
levels = record {
  random_levels = pos 55 ∷ pos 55 ∷ pos 40 ∷ pos 40 ∷ [];
  disk_usage = err runtime_error;
}

abbrev files : Result (List InputFile)
files =
    ok (record { name = codes "a.input"; lines = some (codes "1 /l/g") ∷ []; renames = ok tt } ∷ [])

abbrev target_osts : List ℤ
target_osts = pos 2 ∷ pos 3 ∷ []

abbrev calm : Round
calm = record {
  is_update_fill_level_due = false;
  is_reload_files_due = false;
  is_print_caches_due = false;
  fill_levels = levels;
  files = ok [];
}

abbrev started : State
started = (start settings levels files (initial SharedQueue.empty)).1

abbrev pushed : State
pushed = (round settings skeleton target_osts calm started).1

abbrev pair : Pair
pair = (pos 1, pos 2)

abbrev collected : State
collected = (round settings skeleton target_osts calm (report pair pushed)).1

Pushes-pair : Pushes settings skeleton target_osts started (pair ∷ [])
unfolding start update_ost_fill_level_dict init_ost_target_state_dict process_input_files for_each
    load_input_file load_and_rename load_lines parse_line search_pattern append_item
    allocate_ost_caches update_ost_source_state_dict update_ost_target_state_dict
    update_ost_state_dict unlock lock get put starts_with contains ends_with Int.parse dispatch
    try_sources try_source with_cache search_target dispatch_item push_filled fill_task push_task
    pop_last
Pushes-pair = refl

Pushes-none : Pushes settings skeleton target_osts (report pair pushed) []
unfolding start update_ost_fill_level_dict init_ost_target_state_dict process_input_files for_each
    load_input_file load_and_rename load_lines parse_line search_pattern append_item
    allocate_ost_caches update_ost_source_state_dict update_ost_target_state_dict
    update_ost_state_dict unlock lock get put starts_with contains ends_with Int.parse dispatch
    try_sources try_source with_cache search_target dispatch_item push_filled fill_task push_task
    pop_last round collect finish_tid release_source release_target release parse_tid periodic
    report
Pushes-none = refl

-- The state behind these steps
abbrev final : Life
final = record { running = []; reported = []; state = collected }

life :
    Reach settings skeleton target_osts
      (record { running = []; reported = []; state = started })
      final
unfolding start update_ost_fill_level_dict init_ost_target_state_dict process_input_files for_each
    load_input_file load_and_rename load_lines parse_line search_pattern append_item
    allocate_ost_caches update_ost_source_state_dict update_ost_target_state_dict
    update_ost_state_dict unlock lock get put starts_with contains ends_with Int.parse dispatch
    try_sources try_source with_cache search_target dispatch_item push_filled fill_task push_task
    pop_last round collect finish_tid release_source release_target release parse_tid periodic
    report
life =
    next
      (next
        (next here (
          generator_round (record { running = []; reported = []; state = started }) calm (pair ∷ [])
            Pushes-pair))
        (migration_ends [] [] [] pair pushed))
      (generator_round (record { running = []; reported = pair ∷ []; state = report pair pushed })
        calm [] Pushes-none)

Reach-IsSound_example : IsSound final
Reach-IsSound_example =
    Reach-IsSound settings skeleton target_osts levels files SharedQueue.empty final life

-- The state while the migration is under way
abbrev begun : Life
begun = record { running = pair ∷ []; reported = []; state = pushed }

under_way :
    Reach settings skeleton target_osts
      (record { running = []; reported = []; state = started })
      begun
unfolding start update_ost_fill_level_dict init_ost_target_state_dict process_input_files for_each
    load_input_file load_and_rename load_lines parse_line search_pattern append_item
    allocate_ost_caches update_ost_source_state_dict update_ost_target_state_dict
    update_ost_state_dict unlock lock get put starts_with contains ends_with Int.parse dispatch
    try_sources try_source with_cache search_target dispatch_item push_filled fill_task push_task
    pop_last round collect finish_tid release_source release_target release parse_tid periodic
    report
under_way = next here (
    generator_round (record { running = []; reported = []; state = started }) calm (pair ∷ [])
      Pushes-pair)

open-IsExclusive_example :
    (count (pos 1) (sources (pair ∷ [])) ≤ 1) × (count (pos 1) (targets (pair ∷ [])) ≤ 1)
open-IsExclusive_example =
    open-IsExclusive settings skeleton target_osts levels files SharedQueue.empty begun (pos 1)
      under_way
