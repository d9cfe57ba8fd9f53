-- ===== src/Tests/Push.antt =====
-- The theorems on the file creation check and the pushgateway client at concrete inputs.
use cyclone_distributed_task.Prometheus.Render.{render}
use cyclone_distributed_task.Pushgateway.{
  step, client_round, push_if_due, process_recv_data, push_round, push_metics, PushConfig, Event,
  round, hang_up, run, start,
}
use cyclone_distributed_task.Prelude.{
  zero, ℕ, ◌≡◌, refl, true, false, some, List, [], ◌∷◌, Text, ℤ, pos, codes, arith,
}
use cyclone_distributed_task.Py.Result.{Result, ok, err, io_error}
use cyclone_distributed_task.Prometheus.Metrics.{metric}
use cyclone_distributed_task.Pushgateway.Batches.{Batched, run-Batched, taken, collect, fresh}
use cyclone_distributed_task.Task.Check.{CheckTask}
use cyclone_distributed_task.Task.Check.Sending.{CheckAnswers, check}
use cyclone_distributed_task.Task.Check.Delivery.{Answered, check-collect}

abbrev client : PushConfig
client = record { push_interval = 10; push_url = codes "http://push" }

abbrev round_at : ℕ → Text → Result (Unit {0}) → Event
round_at timestamp text response =
    round (record { timestamp = timestamp; recv_data = ok (some text); response = response })

abbrev events : List Event
events =
    round_at 105 (codes "hebe|OK|0|1") (ok tt)
    ∷ round_at 111 (codes "hebe|FAILED|1|1") (err io_error)
    ∷ round_at 112 (codes "no result") (ok tt)
    ∷ hang_up
    ∷ round_at 113 (codes "hebe|OK|0|1") (ok tt)
    ∷ []

run-Batched_example :
    Batched (run client events (start client 100)) (taken client events (start client 100))
run-Batched_example = run-Batched client 100 events

-- The round after the signal takes in nothing.
taken_before_signal :
    taken client events (start client 100)
    ≡ codes "hebe|OK|0|1" ∷ codes "hebe|FAILED|1|1" ∷ codes "no result" ∷ []
unfolding start step client_round push_if_due process_recv_data push_round push_metics render
taken_before_signal = refl

abbrev check_task : CheckTask
check_task = record {
  ost_idx = pos 7;
  lfs_target = codes "hebe";
  target_base_dir = codes "/lustre/hebe/check";
  target_mdt_sub_dir = codes "mdt";
  mdt_index_rangeset = codes "0-1";
  pushgateway_client_name = codes "host";
  pushgateway_client_port = pos 5000;
  pushgateway_client_timeout = pos 1000;
  mdt_index_list = pos 0 ∷ pos 1 ∷ [];
}

-- The file of MDT 0 lies on the OST, and that of MDT 1 on another.
abbrev found : ℤ → ℤ
found (pos zero) = pos 7
found _ = pos 8

abbrev check_answers : CheckAnswers
check_answers = record {
  is_ost_idx_active = ok true;
  connects = ok tt;
  mdt = λ mdt_idx. record {
    exists_before = ok false;
    removes = ok tt;
    stripes = ok tt;
    stripe_index = ok (found mdt_idx);
    exists_at_exit = true;
    removes_at_exit = ok tt;
  };
  sends = λ _. ok tt;
}

answered : (mdt_idx : ℤ) → Answered (check_answers.mdt mdt_idx) (found mdt_idx)
answered mdt_idx = record {
  existed = false;
  exists = refl;
  removed = refl;
  striped = refl;
  index = refl;
  removed_at_exit = refl;
}

check-collect_example :
    let (r, sent) = check check_answers check_task [] in
    (r ≡ ok tt)
    × (metric (codes "hebe") (pos 1) (pos 7) (collect sent fresh).check_metrics ≡ some 0)
check-collect_example =
    check-collect check_answers check_task found fresh (codes "hebe") (pos 1) (pos 7) refl refl
      ((answered (pos 0), refl), ((answered (pos 1), refl), tt)) refl (omega arith)
