-- ===== src/Generator/Migration/Reached.antt =====
-- The start of the migration generator of task/generator/lustre_ost_migration_task_generator.py, and what holds of
-- every state that it reaches from there.
use cyclone_distributed_task.Py.Result.{Result}
use cyclone_distributed_task.Generator.Migration.Life.{Reach, IsSound, Reach-from, Life}
use cyclone_distributed_task.Generator.Migration.Steady.{
  Steady, seq-Steady, for_each-Steady, gets-Steady,
}
use cyclone_distributed_task.Generator.Migration.Ost.{
  FillLevels, update_ost_fill_level_dict, init_ost_target_state_dict,
}
use cyclone_distributed_task.Generator.Migration.Files.{InputFile, process_input_files}
use cyclone_distributed_task.Generator.Migration.Periodic.{
  fill_level-Steady, target-Steady, process-Steady,
}
use cyclone_distributed_task.Generator.Migration.Booking.{taken-le, count, taken}
use cyclone_distributed_task.Generator.Migration.Dispatch.{start}
use cyclone_distributed_task.Generator.Migration.Open.{sources, targets, IsBooked}
use cyclone_distributed_task.Generator.Migration.State.{Settings, State}
use cyclone_distributed_task.Ctrl.SharedQueue
use cyclone_distributed_task.Ctrl.SharedQueue.{SharedQueue}
use cyclone_distributed_task.Task.Object.{Task}
use cyclone_distributed_task.Py.Dict.{get}
use cyclone_distributed_task.Prelude.{◌++◌, ◌≤◌, arith, List, [], ℤ, ap}

-- The generator's variables before `run`
abbrev pub initial : SharedQueue Task → State
initial tasks = record {
  ost_cache_dict = [];
  ost_source_state_dict = [];
  ost_target_state_dict = [];
  ost_fill_level_dict = [];
  source_ost_key_list = [];
  next_source_ost_key_index = 0;
  next_target_ost_key_index = 0;
  task_queue = tasks;
  result_queue = SharedQueue.empty;
}

start-Steady :
    (c : Settings) (levels : FillLevels) (files : Result (List InputFile))
    → Steady (start c levels files)
unfolding start init_ost_target_state_dict
start-Steady c levels files =
    seq-Steady (update_ost_fill_level_dict c levels) _ (fill_level-Steady c levels) (
      seq-Steady (init_ost_target_state_dict c) _
        (for_each-Steady _ c.ost_target_list (target-Steady c))
        (seq-Steady (process_input_files c files) _ (process-Steady c files) (gets-Steady _)))

started-IsBooked :
    (c : Settings) (levels : FillLevels) (files : Result (List InputFile))
    (tasks : SharedQueue Task)
    → IsBooked [] (start c levels files (initial tasks)).1
unfolding taken count get
started-IsBooked c levels files tasks =
    let kept = (start-Steady c levels files).steady (initial tasks) in
    record { source_taken = kept.source_kept; target_taken = kept.target_kept }

-- In every state that the generator and the others reach in any order of their steps, from the generator's start
-- with an empty result queue: each OST is taken as often as it is the source or target of the migrations that are
-- under way or wait to be collected, and the result queue holds the ids of the latter. Whatever a round raises, it
-- loses no migration.
pub Reach-IsSound :
    (c : Settings) (skeleton : Task) (target_keys : List ℤ) (levels : FillLevels)
    (files : Result (List InputFile)) (tasks : SharedQueue Task) (l : Life)
    → Reach c skeleton target_keys
        (record { running = []; reported = []; state = (start c levels files (initial tasks)).1 })
        l
    → IsSound l
Reach-IsSound c skeleton target_keys levels files tasks l reach =
    Reach-from c skeleton target_keys _ l (started-IsBooked c levels files tasks)
      (ap (λ q. q.items) ((start-Steady c levels files).steady (initial tasks)).results_kept) reach

-- In every state that the generator and the others reach in any order of their steps, from the generator's
-- start with an empty result queue, no OST is the source, or the target, of two migrations that are under way or wait to
-- be collected.
pub open-IsExclusive :
    (c : Settings) (skeleton : Task) (target_keys : List ℤ) (levels : FillLevels)
    (files : Result (List InputFile)) (tasks : SharedQueue Task) (l : Life) (k : ℤ)
    → Reach c skeleton target_keys
        (record { running = []; reported = []; state = (start c levels files (initial tasks)).1 })
        l
    → (count k (sources (l.reported ++ l.running)) ≤ 1)
      × (count k (targets (l.reported ++ l.running)) ≤ 1)
open-IsExclusive c skeleton target_keys levels files tasks l k reach =
    let booked = (Reach-IsSound c skeleton target_keys levels files tasks l reach).booked in
    (
      omega (arith, booked.source_taken k, taken-le k l.state.ost_source_state_dict),
      omega (arith, booked.target_taken k, taken-le k l.state.ost_target_state_dict),
    )
