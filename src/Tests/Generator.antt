-- ===== src/Tests/Generator.antt =====
-- The theorems on the task generators at concrete states.
use cyclone_distributed_task.Prelude.{
  negsuc, ◌+◌, ◌≡◌, refl, true, none, some, List, [], ◌∷◌, ◌++◌, codes, ℤ, pos, int_eq, arith,
  length, false, ℕ, ◌*◌, ◌≤◌, leb,
}
use cyclone_distributed_task.Py.Result.{err, io_error, ok, runtime_error}
use cyclone_distributed_task.Py.Dict.{get}
use cyclone_distributed_task.Py.Int
use cyclone_distributed_task.Ctrl.SharedQueue
use cyclone_distributed_task.Ctrl.SharedQueue.{SharedQueue}
use cyclone_distributed_task.Task.Object.{Task}
use cyclone_distributed_task.Task.Classes.{benchmark_task, import_class}
use cyclone_distributed_task.Generator.Migration.State.{
  blocked, ready, pending_lock, LustreOstMigrateItem, Settings, State,
}
use cyclone_distributed_task.Generator.Migration.Tid.{tid_of, parse_tid, parse_tid-tid_of}
use cyclone_distributed_task.Generator.Migration.Booking.{taken, count}
use cyclone_distributed_task.Generator.Migration.Open.{
  IsBooked, Pair, tids, pair_tids, sources, targets,
}
use cyclone_distributed_task.Generator.Migration.Dispatch.{Round, dispatch, collect, periodic}
use cyclone_distributed_task.Generator.Migration.Opening.{dispatch-IsBooked}
use cyclone_distributed_task.Generator.Migration.Collected.{collect-IsBooked}
use cyclone_distributed_task.Generator.Migration.Periodic.{periodic-IsBooked}
use cyclone_distributed_task.Generator.Migration.Files.{load_lines, cache_of}
use cyclone_distributed_task.Generator.Migration.Loading.{items_of, load_lines-appends}
use cyclone_distributed_task.Task.Xml.{element, nil, cons}
use cyclone_distributed_task.Generator.Base.{BaseTaskGenerator, sleep, total_of, round as round_of}
use cyclone_distributed_task.Generator.Base.Sleep.{sleep-quiet, sleep-signalled}
use cyclone_distributed_task.Generator.Monitoring.{
  MonitorConfig, MonitorRound, monitor, monitored, monitor_lem,
}
use cyclone_distributed_task.Generator.Benchmark

abbrev settings : Settings
settings = record {
  local_mode = true;
  num_osts = pos 4;
  threshold_update_fill_level = pos 10;
  threshold_reload_files = pos 10;
  threshold_print_caches = pos 10;
  ost_fill_level_threshold_source = pos 50;
  ost_fill_level_threshold_target = pos 60;
  ost_target_list = pos 2 ∷ pos 3 ∷ [];
  lfs_path = codes "/l";
}

abbrev skeleton : Task
skeleton = record { class = benchmark_task; tid = none; attributes = [] }

abbrev file_of : ℤ → LustreOstMigrateItem
file_of ost = record { ost = ost; filename = codes "/l/f" }

-- Source 0 is migrated to target 2; source 1 and target 3 are ready.
abbrev state : State
state = record {
  ost_cache_dict = (pos 0, []) ∷ (pos 1, file_of (pos 1) ∷ []) ∷ [];
  ost_source_state_dict = (pos 0, blocked) ∷ (pos 1, ready) ∷ [];
  ost_target_state_dict = (pos 2, pending_lock) ∷ (pos 3, ready) ∷ [];
  ost_fill_level_dict = (pos 0, pos 55) ∷ (pos 1, pos 55) ∷ (pos 2, pos 40) ∷ (pos 3, pos 40) ∷ [];
  source_ost_key_list = pos 0 ∷ pos 1 ∷ [];
  next_source_ost_key_index = 0;
  next_target_ost_key_index = 0;
  task_queue = SharedQueue.empty;
  result_queue = record { items = codes "0:2" ∷ [] };
}

abbrev open_pairs : List Pair
open_pairs = (pos 0, pos 2) ∷ []

source_counts : (k : ℤ) → taken k state.ost_source_state_dict ≡ count k (sources open_pairs)
unfolding taken count get
source_counts (pos n) = ground arith
source_counts (negsuc n) = refl

target_counts : (k : ℤ) → taken k state.ost_target_state_dict ≡ count k (targets open_pairs)
unfolding taken count get
target_counts (pos n) = ground arith
target_counts (negsuc n) = refl

state-IsBooked : IsBooked open_pairs state
state-IsBooked = record { source_taken = source_counts; target_taken = target_counts }

dispatch-IsBooked_example :
    let t = (dispatch settings skeleton (pos 2 ∷ pos 3 ∷ []) state).1 in
    (pairs : List Pair) × (tids t.task_queue.items ≡ tids state.task_queue.items ++ pair_tids pairs)
    × IsBooked (open_pairs ++ pairs) t
    × (t.result_queue ≡ state.result_queue)
dispatch-IsBooked_example =
    dispatch-IsBooked settings skeleton (pos 2 ∷ pos 3 ∷ []) open_pairs state state-IsBooked

collect-IsBooked_example :
    (t : State) × (collect (length state.result_queue.items) state ≡ (ok tt, t))
    × IsBooked [] t
    × (t.result_queue.items ≡ [])
    × (t.task_queue ≡ state.task_queue)
unfolding tid_of Int.format
collect-IsBooked_example = collect-IsBooked open_pairs [] state state-IsBooked refl

abbrev busy_round : Round
busy_round = record {
  is_update_fill_level_due = true;
  is_reload_files_due = true;
  is_print_caches_due = true;
  fill_levels = record {
    random_levels = pos 40 ∷ pos 60 ∷ pos 50 ∷ pos 45 ∷ [];
    disk_usage = err runtime_error;
  };
  files = ok (
      record {
        name = codes "a.input";
        lines = some (codes "1 /l/g") ∷ none ∷ [];
        renames = err io_error;
      }
      ∷ []);
}

periodic-IsBooked_example :
    let t = (periodic settings busy_round state).1 in
    IsBooked open_pairs t
    × (t.task_queue ≡ state.task_queue)
    × (t.result_queue ≡ state.result_queue)
periodic-IsBooked_example = periodic-IsBooked settings busy_round open_pairs state state-IsBooked

parse_tid-tid_of_example : parse_tid (tid_of (pos 12) (pos 345)) ≡ ok (pos 12, pos 345)
parse_tid-tid_of_example = parse_tid-tid_of (pos 12) (pos 345)

load_lines-appends_example :
    let r =
      load_lines (codes "/l") (some (codes "1 /l/g") ∷ none ∷ []) (state.ost_cache_dict, 0, 0) in
    (cache_of (pos 1) r.0
      ≡ cache_of (pos 1) state.ost_cache_dict
        ++ items_of (codes "/l") (pos 1) (some (codes "1 /l/g") ∷ none ∷ []))
    × (r.1 + r.2 ≡ 0 + 0 + length (some (codes "1 /l/g") ∷ none ∷ []))
load_lines-appends_example =
    load_lines-appends (codes "/l") (some (codes "1 /l/g") ∷ none ∷ []) state.ost_cache_dict 0 0
      (pos 1)

abbrev monitor_config : MonitorConfig
monitor_config = record {
  local_mode = false;
  ost_select_set = pos 1 ∷ [];
  task_name = codes "a";
  import_class = import_class;
}

-- Two OSTs, and a file that defines the task
abbrev monitor_round : MonitorRound
monitor_round = record {
  component_states = ok (pos 0 ∷ pos 1 ∷ []);
  isfile = true;
  parsed = ok (
      element (codes "tasks") [] none (
        cons
          (element (codes "task") ((codes "name", codes "a") ∷ []) none (
            cons
              (element (codes "class")
                ((codes "module", codes "task.empty_task") ∷ (codes "name", codes "EmptyTask") ∷ [])
                none nil)
              nil))
          nil));
}

monitor_lem_example :
    monitor monitor_config monitor_round (record { items = skeleton ∷ [] })
    ≡ monitored monitor_config monitor_round
monitor_lem_example = monitor_lem monitor_config monitor_round (record { items = skeleton ∷ [] })

start-numbers_example :
    (filled : SharedQueue Task) × (Benchmark.start 3 (record { items = skeleton ∷ [] }) ≡ ok filled)
    × (Benchmark.tids filled.items ≡ Benchmark.numbers 3 0)
start-numbers_example = Benchmark.start-numbers 3 (record { items = skeleton ∷ [] })

-- A generator that runs and has not slept
abbrev running : BaseTaskGenerator
running = record { run_flag = true; do_sleep = false; slept = 0 }

-- It asks for two and a half seconds, which are two.
sleep-quiet_example :
    (n : ℕ) × (sleep 2500 (λ k. false) running
      ≡ record { run_flag = true; do_sleep = true; slept = 0 + 1000 * n })
    × (1000 * n ≤ 2500 + 500)
    × (2500 ≤ 1000 * n + 500)
unfolding total_of round_of
sleep-quiet_example = sleep-quiet (λ k. false) 2500 running refl (λ k low high. refl)

-- The signal comes in the third of five seconds.
sleep-signalled_example :
    sleep 5000 (λ k. leb 2 k) running ≡ record { run_flag = false; do_sleep = false; slept = 3000 }
unfolding total_of round_of
sleep-signalled_example =
    sleep-signalled (λ k. leb 2 k) 5000 2 running refl (λ k low high. ground arith) refl
      (omega arith)
