-- ===== src/Controller/Retry.antt =====
-- How the loop of cyclone-controller.py ends when the master does not answer.
use cyclone_distributed_task.Prelude.{
  ℕ, zero, suc, true, false, ◌≡◌, ◌≢◌, refl, none, some, List, [], ◌∷◌, ◌++◌, Text, arith, nat_beq,
  ◌+◌, length, All, Bool-cases, inr, inl, sym,
}
use cyclone_distributed_task.Py.Result.{ok}
use cyclone_distributed_task.Ctrl.SharedQueue
use cyclone_distributed_task.Msg.Message.{
  task_request, task_finished, task_req, task_fin, field_separator, init, Message, new_task_request,
  new_task_finished,
}
use cyclone_distributed_task.Controller.Loop.{
  ControllerConfig, ControllerState, ControllerRound, found_ready_worker, next_result, ask_or_wait,
  choose, act, stop, retry, give_up_or_retry, exchange, try_round, caught, round, run,
}

-- No response comes in either call of `recv_string`, and a worker is ready.
abbrev pub IsSilent : ControllerRound → Type 0
IsSilent r =
    (r.response ≡ none) × (r.second_response ≡ none) × (found_ready_worker r.workers ≡ true)

-- The controller with a name chooses a message, and only the result queue may change.
record Chooses (c : ControllerConfig) (r : ControllerRound) (s : ControllerState) : Type 0 where
  message : Message
  after : ControllerState
  chosen : choose c r s ≡ (ok (some message), after)
  same_count : after.request_retry_count ≡ s.request_retry_count
  same_condition : after.run_condition ≡ s.run_condition

chooses :
    (c : ControllerConfig) (ch : ℕ) (name : Text) (r : ControllerRound) (s : ControllerState)
    → c.fqdn ≡ ch ∷ name
    → found_ready_worker r.workers ≡ true
    → Chooses c r s
unfolding choose next_result ask_or_wait SharedQueue.pop_nowait
chooses c ch name r s named found = go s.result_queue.items refl
  where
    go : (items : List Text) → s.result_queue.items ≡ items → Chooses c r s
    go [] e = record {
      message = record { kind = task_request; header = task_req; body = some (ch ∷ name) };
      after = record s { result_queue = record { items = [] } };
      chosen = unfold new_task_request init in simp (e, named, found);
      same_count = refl;
      same_condition = refl;
    }
    go ([] ∷ rest) e = record {
      message = record { kind = task_request; header = task_req; body = some (ch ∷ name) };
      after = record s { result_queue = record { items = rest } };
      chosen = unfold new_task_request init in simp (e, named, found);
      same_count = refl;
      same_condition = refl;
    }
    go ((d ∷ tid) ∷ rest) e = record {
      message = record {
        kind = task_finished;
        header = task_fin;
        body = some ((ch ∷ name) ++ (field_separator ∷ d ∷ tid));
      };
      after = record s { result_queue = record { items = rest } };
      chosen = unfold new_task_finished init in simp (e, named);
      same_count = refl;
      same_condition = refl;
    }

-- A silent round at the last retry stops the controller.
round-last :
    (c : ControllerConfig) (ch : ℕ) (name : Text) (r : ControllerRound) (s : ControllerState)
    → c.fqdn ≡ ch ∷ name
    → IsSilent r
    → s.request_retry_count ≡ c.max_num_request_retries
    → (round c r s).run_condition ≡ false
unfolding round try_round exchange give_up_or_retry retry act stop caught
round-last c ch name r s named silent last =
    let h = chooses c ch name r s named silent.2 in
    simp (h.chosen, silent.0, silent.1, h.same_count, last, same)
  where
    same : nat_beq c.max_num_request_retries c.max_num_request_retries ≡ true
    same = ground arith

-- A silent round before counts one retry.
round-earlier :
    (c : ControllerConfig) (ch : ℕ) (name : Text) (r : ControllerRound) (s : ControllerState)
    → c.fqdn ≡ ch ∷ name
    → IsSilent r
    → s.request_retry_count ≢ c.max_num_request_retries
    → ((round c r s).request_retry_count ≡ suc s.request_retry_count)
      × ((round c r s).run_condition ≡ s.run_condition)
unfolding round try_round exchange give_up_or_retry retry act stop caught
round-earlier c ch name r s named silent earlier =
    let h = chooses c ch name r s named silent.2 in
    simp (h.chosen, silent.0, silent.1, h.same_count, differs) (refl, h.same_condition)
  where
    differs : nat_beq s.request_retry_count c.max_num_request_retries ≡ false
    differs = ground (arith, earlier)

run-halted :
    (c : ControllerConfig) (rs : List ControllerRound) (s : ControllerState)
    → s.run_condition ≡ false
    → (run c rs s).run_condition ≡ false
unfolding run
run-halted c [] s h = h
run-halted c (r ∷ rs) s h = simp h

run-cons :
    (c : ControllerConfig) (r : ControllerRound) (rs : List ControllerRound) (s : ControllerState)
    → s.run_condition ≡ true
    → run c (r ∷ rs) s ≡ run c rs (round c r s)
unfolding run
run-cons c r rs s h = rw h refl

nat_suc_ne : (n : ℕ) → suc n ≢ 0
nat_suc_ne n = omega arith

-- A controller with a name whose workers are ready and that never gets a response leaves its loop:
-- with `left` retries before the maximum, its loop has ended after `left + 1` rounds, whatever the
-- results are that it has to report.
pub run-gives_up :
    (c : ControllerConfig) (ch : ℕ) (name : Text) (left : ℕ) (r : ControllerRound)
    (rs : List ControllerRound) (s : ControllerState)
    → c.fqdn ≡ ch ∷ name
    → s.request_retry_count + left ≡ c.max_num_request_retries
    → length rs ≡ left
    → All IsSilent (r ∷ rs)
    → (run c (r ∷ rs) s).run_condition ≡ false
run-gives_up c ch name zero r [] s named count size silent = elim (Bool-cases s.run_condition) [
  | inr halted ↦ run-halted c (r ∷ []) s halted
  | inl on ↦
      rw (run-cons c r [] s on)
        (run-halted c [] _ (round-last c ch name r s named silent.0 (omega (arith, count))))
]
run-gives_up c ch name zero r (q ∷ rs) s named count size silent = elim (nat_suc_ne _ size) [ ]
run-gives_up c ch name (suc left) r [] s named count size silent =
    elim (nat_suc_ne _ (sym size)) [ ]
run-gives_up c ch name (suc left) r (q ∷ rs) s named count size silent =
    elim (Bool-cases s.run_condition) [
      | inr halted ↦ run-halted c (r ∷ q ∷ rs) s halted
      | inl on ↦
          let earlier : s.request_retry_count ≢ c.max_num_request_retries = omega (arith, count) in
          let (counted, _) = round-earlier c ch name r s named silent.0 earlier in
          rw (run-cons c r (q ∷ rs) s on) (
            run-gives_up c ch name left q rs (round c r s) named (omega (arith, counted, count))
              (omega (arith, size)) silent.1)
    ]
