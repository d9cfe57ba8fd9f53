-- ===== src/Pushgateway.antt =====
-- cyclone-pushgateway-client.py: the loop that takes in check results and pushes their metrics.
pub mod Batches
use cyclone_distributed_task.Prelude.{
  ℕ, ◌+◌, true, false, Bool, Option, none, some, List, [], ◌∷◌, ◌++◌, Text, is_nil, leb,
  if◌then◌else◌,
}
use cyclone_distributed_task.Py.Result.{Result, ok, err}
use cyclone_distributed_task.Py.Exec.{Exec, pure, lift, modify, ◌>>◌}
use cyclone_distributed_task.Prometheus.Metrics.{Processor, process, clear}
use cyclone_distributed_task.Prometheus.Render.{render}

pub record PushConfig : Type 0 where
  pub push_interval : ℕ
  pub push_url : Text

-- `lustre_file_creation_metrics` and the variables of the loop. `posted` lists the data of the requests that have
-- been answered without an error.
pub record ClientState : Type 0 where
  pub metrics : Processor
  pub next_push_timestamp : ℕ
  pub run_condition : Bool
  pub posted : List Text

-- What one round reads from outside: the clock, what `recv_string` gives, and the answer to a request.
pub record ClientRound : Type 0 where
  pub timestamp : ℕ
  pub recv_data : Result (Option Text)
  pub response : Result (Unit {0})

pub data Event : Type 0 where
  round : ClientRound → Event
  hang_up interrupt terminate other_signal : Event

abbrev pub Client : Type 0
Client = Exec ClientState (Unit {0})

-- `lustre_file_creation_metrics.process(recv_data)`, with its exception caught
unfoldable pub absorb : Text → Processor → Processor
absorb recv_data p = (process recv_data p).1

-- `process_recv_data`
unfoldable pub process_recv_data : Result (Option Text) → ClientState → ClientState
process_recv_data (err e) s = s
process_recv_data (ok none) s = s
process_recv_data (ok (some recv_data)) s =
    if is_nil recv_data then s else record s { metrics = absorb recv_data s.metrics }

-- `push_metics`
unfoldable pub push_metics : Result (Unit {0}) → Client
push_metics response s =
    let pushed = render s.metrics in
    if is_nil pushed then (ok tt, s) else (do lift response; modify (post pushed)) s
  where
    post : Text → ClientState → ClientState
    post pushed s = record s { posted = s.posted ++ pushed ∷ [] }

-- What follows `if last_exec_timestamp >= next_push_timestamp`
unfoldable pub push_round : PushConfig → ClientRound → Client
push_round c r = do
  push_metics r.response
  modify (λ s. record s { metrics = clear s.metrics })
  modify (λ s. record s { next_push_timestamp = r.timestamp + c.push_interval })

-- `if last_exec_timestamp >= next_push_timestamp: …`; an exception is logged and the loop goes on.
unfoldable pub push_if_due : PushConfig → ClientRound → ClientState → ClientState
push_if_due c r s = if leb s.next_push_timestamp r.timestamp then (push_round c r s).1 else s

-- The body of the loop
unfoldable pub client_round : PushConfig → ClientRound → ClientState → ClientState
client_round c r s = push_if_due c r (process_recv_data r.recv_data s)

-- `signal_handler`, with `stop_run`
unfoldable pub signal_handler : Event → ClientState → ClientState
signal_handler other_signal s = s
signal_handler (round r) s = s
signal_handler _ s = record s { run_condition = false }

-- One event. Where the loop has ended, no round follows.
unfoldable pub step : PushConfig → Event → ClientState → ClientState
unfolding signal_handler
step c (round r) s = if s.run_condition then client_round c r s else s
step c e s = signal_handler e s

unfoldable pub run : PushConfig → List Event → ClientState → ClientState
unfolding step
run c [] s = s
run c (e ∷ es) s = run c es (step c e s)

-- The state at the start of the loop
unfoldable pub start : PushConfig → ℕ → ClientState
start c timestamp = record {
  metrics = record { error_metric = false; check_metrics = [] };
  next_push_timestamp = timestamp + c.push_interval;
  run_condition = true;
  posted = [];
}
