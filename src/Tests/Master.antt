-- ===== src/Tests/Master.antt =====
-- The theorems on the loop of cyclone-master.py at concrete states and messages.
use cyclone_distributed_task.Prelude.{
  ◌≡◌, refl, true, false, Option, none, some, List, [], ◌∷◌, map, Text, codes, arith, text_eq,
  option_eq, if◌then◌else◌, is_nil, ltb, ◌↔◌,
}
use cyclone_distributed_task.Py.Dict.{get}
use cyclone_distributed_task.Py.Str.{find, split}
use cyclone_distributed_task.Ctrl.TaskStatus.{assigned}
use cyclone_distributed_task.Task.Object.{Task}
use cyclone_distributed_task.Task.Classes.{benchmark_task}
use cyclone_distributed_task.Msg.Message.{
  new_acknowledge, new_heartbeat, new_task_request, init, sender, heartbeat, task_request,
  heartbeat_type, task_req,
}
use cyclone_distributed_task.Msg.Factory.{create}
use cyclone_distributed_task.Master.State.{Config, MasterState, Round, start}
use cyclone_distributed_task.Master.Handlers.{handle_finished, handle_request}
use cyclone_distributed_task.Master.Loop.{
  Event, serve, generated, stop_task_distribution, round, run,
}
use cyclone_distributed_task.Master.Assignment.{
  assigned_to, with_queue, Waits, Assigns, request-Waits, request-Assigns,
}
use cyclone_distributed_task.Master.Finish.{with_finished, assigned-finishes}
use cyclone_distributed_task.Master.Invariant.{IsConsistent}
use cyclone_distributed_task.Master.Invariant.Runs.{run-IsConsistent}
use cyclone_distributed_task.Master.Timeout.{interrupted, timeout_alive, timeout_expired}
use cyclone_distributed_task.Master.Shutdown.{IsFrom, dismissed, exit_round, run-drains}
use cyclone_distributed_task.Py.Result.{ok}
use cyclone_distributed_task.Master.Process.{
  GeneratorProcess, end_generator, not_ended, Outside, main,
}
use cyclone_distributed_task.Master.Ending.{Ends, end_generator-Ends}
use cyclone_distributed_task.Master.Exit.{code_of, IsSmooth, main-smooth}

abbrev config : Config
config = record {
  controller_timeout_ms = 60000;
  controller_wait_duration = 1;
  task_resend_timeout = 100;
}

abbrev node_a : Text
node_a = codes "a"

abbrev node_b : Text
node_b = codes "b"

abbrev hears : Option Text → Round
hears text = record {
  last_exec_timestamp = 1000;
  recv_data = text;
  heartbeat_time = 1000;
  status_time = 1000;
  is_locked = true;
  generator_alive = true;
}

abbrev from_a : Round
from_a = hears (some (codes "HEARTBEAT|a"))

abbrev from_b : Round
from_b = hears (some (codes "TASK_REQ|b"))

abbrev task_7 : Task
task_7 = record { class = benchmark_task; tid = some (codes "7"); attributes = [] }

abbrev assigned_7 : MasterState
assigned_7 = record (start config) {
  task_status_dict =
      (
        some (codes "7"),
        record { tid = some (codes "7"); state = assigned; controller = node_a; timestamp = 950 },
      )
      ∷ [];
}

request-Waits_example :
    Waits config from_b node_b task_7
      (with_queue assigned_7 [])
      (handle_request config from_b node_b (with_queue assigned_7 (task_7 ∷ [])))
unfolding get
request-Waits_example =
    request-Waits config from_b node_b task_7 [] assigned_7 refl (refl, omega arith)

request-Assigns_example :
    Assigns config from_b node_b task_7
      (with_queue (start config) [])
      (handle_request config from_b node_b (with_queue (start config) (task_7 ∷ [])))
unfolding get
request-Assigns_example =
    request-Assigns config from_b node_b task_7 [] (start config) refl (λ h. h)

abbrev events : List Event
events = generated task_7 ∷ serve from_b ∷ serve from_a ∷ stop_task_distribution ∷ serve from_b ∷ []

run-IsConsistent_example : IsConsistent (run config events (start config))
run-IsConsistent_example = run-IsConsistent config events

-- The distribution is off, and two controllers are left: the first has been heard of in time.
abbrev draining : MasterState
draining = record (start config) {
  task_distribution = false;
  controller_heartbeat_dict = (node_a, 990) ∷ (node_b, 900) ∷ [];
}

abbrev alone : MasterState
alone = record (start config) {
  task_distribution = false;
  controller_heartbeat_dict = (node_a, 990) ∷ [];
}

timeout_alive_example : round config (hears none) alone ≡ (
  none,
  record alone {
    run_flag = if is_nil alone.controller_heartbeat_dict then false else alone.run_flag;
  },
)
unfolding get
timeout_alive_example =
    timeout_alive config (hears none) alone refl refl ((990, refl, omega arith), tt)

timeout_expired_example :
    round config (hears none) draining ≡ (none, interrupted config (hears none) draining node_b)
unfolding get
timeout_expired_example =
    timeout_expired config (hears none) draining (node_a ∷ []) node_b [] refl refl refl
      ((990, refl, omega arith), tt) (900, refl, omega arith)

a_IsFrom : IsFrom from_a node_a
unfolding create split init sender find new_heartbeat
a_IsFrom = record {
  text = codes "HEARTBEAT|a";
  message = record { kind = heartbeat; header = heartbeat_type; body = some node_a };
  received = refl;
  created = refl;
  sent_by = refl;
}

b_IsFrom : IsFrom from_b node_b
unfolding create split init sender find new_task_request
b_IsFrom = record {
  text = codes "TASK_REQ|b";
  message = record { kind = task_request; header = task_req; body = some node_b };
  received = refl;
  created = refl;
  sent_by = refl;
}

exit_round_example :
    round config from_a draining ≡ (some (codes "EXIT_CMD"), dismissed from_a node_a draining)
exit_round_example = exit_round config from_a node_a draining refl a_IsFrom

run-drains_example : (run config (map serve (from_b ∷ from_a ∷ [])) draining).run_flag ≡ false
run-drains_example =
    run-drains config from_b (from_a ∷ []) node_b (node_a ∷ []) draining refl (refl, (refl, tt))
      (b_IsFrom, (a_IsFrom, tt))

assigned-finishes_example :
    let served =
      (handle_request config from_a node_a (with_queue (start config) (task_7 ∷ []))).1 in
    (handle_finished from_b node_a (codes "7") served ≡ (
      new_acknowledge,
      with_finished from_b (codes "7") (assigned_to from_a node_a task_7) served,
    ))
    × (handle_finished from_b node_b (codes "7") served ≡ (new_acknowledge, served))
unfolding get
assigned-finishes_example =
    assigned-finishes config from_a from_b node_a node_b (codes "7") task_7 [] (start config) refl
      refl refl refl (λ h. h)

-- A generator that needs three seconds to end
abbrev slow : GeneratorProcess
slow = record { alive = λ n. ltb n 4; kills = ok tt }

end_generator-Ends_example : Ends slow (end_generator slow not_ended).1.actions
end_generator-Ends_example = end_generator-Ends slow refl refl (λ m n low ended. ground arith)

-- The master starts with this generator, and everything around its loop succeeds.
abbrev outside : Outside
outside = record {
  locked = ok true;
  connects = ok tt;
  creates = ok tt;
  starts = ok tt;
  closes = ok tt;
  process = slow;
}

-- A controller of which the master hears in the shutdown, behind which the loop ends
main-smooth_example :
    IsSmooth config outside (stop_task_distribution ∷ serve from_a ∷ [])
    ↔ (code_of (main config outside (stop_task_distribution ∷ serve from_a ∷ [])) ≡ some 0)
main-smooth_example = main-smooth config outside (stop_task_distribution ∷ serve from_a ∷ [])
