-- ===== src/Pushgateway/Batches.antt =====
-- What the pushgateway client promises: the results that it takes in are cut into batches in the order of their
-- arrival, and each push has exactly the metrics of one batch.
use cyclone_distributed_task.Pushgateway.{
  hang_up, interrupt, terminate, other_signal, PushConfig, ClientState, ClientRound, Event, round,
  absorb, process_recv_data, push_metics, push_round, step, client_round, run, signal_handler,
  start, push_if_due,
}
use cyclone_distributed_task.Prelude.{
  ◌≡◌, refl, ◌∙◌, ap, sym, true, false, Bool, Option, none, some, List, [], ◌∷◌, ◌++◌, map, Text,
  is_nil, if◌then◌else◌, append-nil, append_assoc, subst, Bool-cases, leb, ℕ, inl, inr,
}
use cyclone_distributed_task.Py.Result.{Result, ok, err}
use cyclone_distributed_task.Prometheus.Metrics.{Processor, clear}
use cyclone_distributed_task.Prometheus.Render.{render, create_error_metric}

abbrev pub fresh : Processor
fresh = record { error_metric = false; check_metrics = [] }

-- The metrics after a batch of results
abbrev pub collect : List Text → Processor → Processor
collect [] p = p
collect (m ∷ ms) p = collect ms (absorb m p)

-- The data that a push of a batch has
abbrev pub push_of : List Text → Text
push_of batch = render (collect batch fresh)

abbrev pub concat : List (List Text) → List Text
concat [] = []
concat (b ∷ bs) = b ++ concat bs

-- The result that a round takes in, if any
abbrev pub message_of : Result (Option Text) → List Text
message_of (err e) = []
message_of (ok none) = []
message_of (ok (some m)) = if is_nil m then [] else m ∷ []

abbrev pub taken_by : Event → Bool → List Text
taken_by (round r) true = message_of r.recv_data
taken_by _ _ = []

-- The results that the loop takes in during a run, in order
abbrev pub taken : PushConfig → List Event → ClientState → List Text
taken c [] s = []
taken c (e ∷ es) s = taken_by e s.run_condition ++ taken c es (step c e s)

-- The results taken in are those of the batches that were pushed, and then those that wait.
pub record Batched (s : ClientState) (results : List Text) : Type 0 where
  pub batches : List (List Text)
  pub waiting : List Text
  pub in_order : concat batches ++ waiting ≡ results
  pub pushed : s.posted ≡ map push_of batches
  pub collected : s.metrics ≡ collect waiting fresh

collect-append :
    (xs ys : List Text) (p : Processor) → collect (xs ++ ys) p ≡ collect ys (collect xs p)
collect-append [] ys p = refl
collect-append (x ∷ xs) ys p = collect-append xs ys (absorb x p)

concat-append : (xs : List (List Text)) (b : List Text) → concat (xs ++ b ∷ []) ≡ concat xs ++ b
concat-append [] b = append-nil b
concat-append (x ∷ xs) b =
    ap (λ r. x ++ r) (concat-append xs b) ∙ sym (append_assoc x (concat xs) b)

map-snoc :
    (xs : List (List Text)) (b : List Text)
    → map push_of (xs ++ b ∷ []) ≡ map push_of xs ++ push_of b ∷ []
map-snoc [] b = refl
map-snoc (x ∷ xs) b = ap (λ r. push_of x ∷ r) (map-snoc xs b)

take_in :
    (s : ClientState) (results : List Text) (m : Text)
    → Batched s results
    → Batched (record s { metrics = absorb m s.metrics }) (results ++ m ∷ [])
take_in s results m h = record {
  batches = h.batches;
  waiting = h.waiting ++ m ∷ [];
  in_order =
      sym (append_assoc (concat h.batches) h.waiting (m ∷ [])) ∙ ap (λ r. r ++ m ∷ []) h.in_order;
  pushed = h.pushed;
  collected = ap (absorb m) h.collected ∙ sym (collect-append h.waiting (m ∷ []) fresh);
}

same_results : {s : ClientState} {xs ys : List Text} → xs ≡ ys → Batched s xs → Batched s ys
same_results {s} e h = subst (Batched s) e h

process_recv_data-Batched :
    (answer : Result (Option Text)) (s : ClientState) (results : List Text)
    → Batched s results
    → Batched (process_recv_data answer s) (results ++ message_of answer)
unfolding process_recv_data
process_recv_data-Batched (err e) s results h = same_results (sym (append-nil results)) h
process_recv_data-Batched (ok none) s results h = same_results (sym (append-nil results)) h
process_recv_data-Batched (ok (some [])) s results h = same_results (sym (append-nil results)) h
process_recv_data-Batched (ok (some (c ∷ m))) s results h = take_in s results (c ∷ m) h

-- There is always something to push.
render-nonempty : (p : Processor) → is_nil (render p) ≡ false
unfolding render create_error_metric
render-nonempty p = refl

-- A push that is answered without an error takes all that waits; one that fails takes nothing.
push_round-Batched :
    (c : PushConfig) (r : ClientRound) (s : ClientState) (results : List Text)
    → Batched s results
    → Batched (push_round c r s).1 results
unfolding push_round push_metics clear
push_round-Batched c r s results h = go r.response refl
  where
    go :
        (response : Result (Unit {0}))
        → r.response ≡ response
        → Batched (push_round c r s).1 results
    go (err e) failed = simp (render-nonempty s.metrics, failed) h
    go (ok _) answered =
        simp (render-nonempty s.metrics, answered)
          (record {
            batches = h.batches ++ h.waiting ∷ [];
            waiting = [];
            in_order = append-nil _ ∙ concat-append h.batches h.waiting ∙ h.in_order;
            pushed =
                ap (λ posted. posted ++ render s.metrics ∷ []) h.pushed
                ∙ ap (λ p. map push_of h.batches ++ render p ∷ []) h.collected
                ∙ sym (map-snoc h.batches h.waiting);
            collected = refl;
          })

push_if_due-Batched :
    (c : PushConfig) (r : ClientRound) (s : ClientState) (results : List Text)
    → Batched s results
    → Batched (push_if_due c r s) results
unfolding push_if_due
push_if_due-Batched c r s results h = elim (Bool-cases (leb s.next_push_timestamp r.timestamp)) [
  | inl due ↦ rw due (push_round-Batched c r s results h)
  | inr early ↦ rw early h
]

client_round-Batched :
    (c : PushConfig) (r : ClientRound) (s : ClientState) (results : List Text)
    → Batched s results
    → Batched (client_round c r s) (results ++ message_of r.recv_data)
unfolding client_round
client_round-Batched c r s results h =
    push_if_due-Batched c r _ _ (process_recv_data-Batched r.recv_data s results h)

stopped :
    (s : ClientState) (results : List Text)
    → Batched s results
    → Batched (record s { run_condition = false }) (results ++ [])
stopped s results h = same_results (sym (append-nil results)) (record {
  batches = h.batches;
  waiting = h.waiting;
  in_order = h.in_order;
  pushed = h.pushed;
  collected = h.collected;
})

step-Batched :
    (c : PushConfig) (e : Event) (s : ClientState) (results : List Text)
    → Batched s results
    → Batched (step c e s) (results ++ taken_by e s.run_condition)
unfolding step signal_handler
step-Batched c (round r) s results h = elim (Bool-cases s.run_condition) [
  | inl on ↦ simp on (client_round-Batched c r s results h)
  | inr off ↦ simp off (same_results (sym (append-nil results)) h)
]
step-Batched c hang_up s results h = stopped s results h
step-Batched c interrupt s results h = stopped s results h
step-Batched c terminate s results h = stopped s results h
step-Batched c other_signal s results h = same_results (sym (append-nil results)) h

run-from :
    (c : PushConfig) (es : List Event) (s : ClientState) (results : List Text)
    → Batched s results
    → Batched (run c es s) (results ++ taken c es s)
unfolding run
run-from c [] s results h = same_results (sym (append-nil results)) h
run-from c (e ∷ es) s results h =
    same_results (append_assoc results (taken_by e s.run_condition) (taken c es (step c e s)))
      (run-from c es (step c e s) _ (step-Batched c e s results h))

-- In every run of the client, whatever the requests answer, the results that its loop takes in are cut into batches
-- in the order of their arrival: each request that was answered without an error had the metrics of exactly one
-- batch, in order, and the metrics kept are those of the results after the last batch. So a failed push loses
-- nothing, and no result is pushed twice.
pub run-Batched :
    (c : PushConfig) (timestamp : ℕ) (es : List Event)
    → Batched (run c es (start c timestamp)) (taken c es (start c timestamp))
unfolding start
run-Batched c timestamp es =
    run-from c es (start c timestamp) []
      (record { batches = []; waiting = []; in_order = refl; pushed = refl; collected = refl })
