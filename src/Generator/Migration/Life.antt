-- ===== src/Generator/Migration/Life.antt =====
-- The life of the migration generator of task/generator/lustre_ost_migration_task_generator.py beside the master
-- that takes its tasks and reports the finished ones: the steps of both, in any order.
use cyclone_distributed_task.Prelude.{
  arith, ◌≡◌, refl, ◌∙◌, ap, sym, List, [], ◌∷◌, ◌++◌, map, length, ℤ, drop, drop-length-append,
  append_assoc,
}
use cyclone_distributed_task.Py.Result.{Result, ok, err}
use cyclone_distributed_task.Ctrl.SharedQueue.{SharedQueue}
use cyclone_distributed_task.Task.Object.{Task}
use cyclone_distributed_task.Generator.Migration.State.{Settings, State}
use cyclone_distributed_task.Generator.Migration.Tid.{parse_tid, parse_tid-tid_of}
use cyclone_distributed_task.Generator.Migration.Open.{
  Pair, sources, targets, count-sources, count-targets, tid_of_pair, tids, pair_tids, IsBooked,
}
use cyclone_distributed_task.Generator.Migration.Dispatch.{
  Round, dispatch, collect, periodic, round,
}
use cyclone_distributed_task.Generator.Migration.Opening.{dispatch-IsBooked}
use cyclone_distributed_task.Py.Exec.{◌>>=◌, ◌>>◌, Exec, and_then, gets}
use cyclone_distributed_task.Generator.Migration.Collected.{collect-IsBooked}
use cyclone_distributed_task.Generator.Migration.Periodic.{periodic-IsBooked}
use cyclone_distributed_task.Generator.Migration.Booking.{count}

-- A state of the generator, the migrations that are under way, and those whose id waits in the result queue
pub record Life : Type 0 where
  pub running : List Pair
  pub reported : List Pair
  pub state : State

-- What is left of the reported migrations behind the dispatch loop: its exception skips the loop that collects.
abbrev pub left_over : Result (Unit {0}) → List Pair → List Pair
left_over (ok _) reported = []
left_over (err e) reported = reported

-- The id of a finished migration is pushed into the result queue.
unfoldable pub report : Pair → State → State
report pair s = record s {
  result_queue = record { items = s.result_queue.items ++ tid_of_pair pair ∷ [] };
}

-- The pairs whose tasks the dispatch loop pushes from a state
abbrev pub Pushes : Settings → Task → List ℤ → State → List Pair → Type 0
Pushes c skeleton targets s pairs =
    tids (dispatch c skeleton targets s).1.task_queue.items
    ≡ tids s.task_queue.items ++ pair_tids pairs

module _ (c : Settings) (skeleton : Task) (target_keys : List ℤ) where
  -- A round of the generator, a report of a migration under way, and anything that others do to the task queue
  pub data Step : Life → Life → Type 0 where
    generator_round :
        (l : Life) (r : Round) (pairs : List Pair)
        → Pushes c skeleton target_keys l.state pairs
        → Step l (record {
          running = l.running ++ pairs;
          reported = left_over (dispatch c skeleton target_keys l.state).0 l.reported;
          state = (round c skeleton target_keys r l.state).1;
        })
    migration_ends :
        (before after reported : List Pair) (pair : Pair) (s : State)
        → Step
            (record { running = before ++ pair ∷ after; reported = reported; state = s })
            (record {
              running = before ++ after;
              reported = reported ++ pair ∷ [];
              state = report pair s;
            })
    task_queue_changes :
        (l : Life) (queue : SharedQueue Task)
        → Step l (record l { state = record l.state { task_queue = queue } })

  pub data Reach (from : Life) : Life → Type 0 where
    here : Reach from from
    next : {l m : Life} → Reach from l → Step l m → Reach from m

-- The states of the OSTs agree with the migrations that are under way or wait to be collected, and the result queue
-- holds the ids of the latter.
pub record IsSound (l : Life) : Type 0 where
  pub booked : IsBooked (l.reported ++ l.running) l.state
  pub queued : l.state.result_queue.items ≡ map tid_of_pair l.reported

ok_injective : (p q : Pair) → ok p ≡ ok q → p ≡ q
ok_injective p q e = cc e

-- Different pairs have different ids.
tid_of_pair-injective : (p q : Pair) → tid_of_pair p ≡ tid_of_pair q → p ≡ q
tid_of_pair-injective (a, b) (x, y) e =
    ok_injective (a, b) (x, y) (sym (parse_tid-tid_of a b) ∙ ap parse_tid e ∙ parse_tid-tid_of x y)

pair_tids-injective : (ps qs : List Pair) → pair_tids ps ≡ pair_tids qs → ps ≡ qs
pair_tids-injective [] [] e = refl
pair_tids-injective [] (q ∷ qs) e = cc e
pair_tids-injective (p ∷ ps) [] e = cc e
pair_tids-injective (p ∷ ps) (q ∷ qs) e =
    let first : tid_of_pair p ≡ tid_of_pair q = cc e in
    let rest : pair_tids ps ≡ pair_tids qs = cc e in
    cc (tid_of_pair-injective p q first, pair_tids-injective ps qs rest)

append-cancel {ℓ} : {A : Type ℓ} (xs ys zs : List A) → xs ++ ys ≡ xs ++ zs → ys ≡ zs
append-cancel xs ys zs e =
    sym (drop-length-append xs ys) ∙ ap (drop (length xs)) e ∙ drop-length-append xs zs

module _ (c : Settings) (skeleton : Task) (target_keys : List ℤ) where
  collect_then : Round → Exec State (Unit {0})
  collect_then r = do n ← gets (λ s. length s.result_queue.items); collect n; periodic c r

  -- What follows the dispatch loop
  after_dispatch :
      (r : Round) (reported running : List Pair) (result : Result (Unit {0})) (t : State)
      → IsBooked (reported ++ running) t
      → t.result_queue.items ≡ map tid_of_pair reported
      → IsSound (record {
        running = running;
        reported = left_over result reported;
        state = (and_then result (λ _. collect_then r) t).1;
      })
  unfolding collect_then
  after_dispatch r reported running (err e) t b q = record { booked = b; queued = q }
  after_dispatch r reported running (ok _) t b q =
      let (u, collected, b', empty, _) = collect-IsBooked reported running t b q in
      let (b'', _, same) = periodic-IsBooked c r running u b' in
      simp collected (record { booked = b''; queued = ap (λ x. x.items) same ∙ empty })

  round-IsSound :
      (l : Life) (r : Round) (pairs : List Pair)
      → IsSound l
      → Pushes c skeleton target_keys l.state pairs
      → IsSound (record {
        running = l.running ++ pairs;
        reported = left_over (dispatch c skeleton target_keys l.state).0 l.reported;
        state = (round c skeleton target_keys r l.state).1;
      })
  unfolding round collect_then
  round-IsSound l r pairs h pushes =
      let (pushed, same_tids, b, q) =
        dispatch-IsBooked c skeleton target_keys (l.reported ++ l.running) l.state h.booked in
      let same : pushed ≡ pairs =
        pair_tids-injective pushed pairs
          (append-cancel (tids l.state.task_queue.items) _ _ (sym same_tids ∙ pushes)) in
      let booked : IsBooked (l.reported ++ (l.running ++ pairs))
          (dispatch c skeleton target_keys l.state).1 =
        rw (← append_assoc l.reported l.running pairs, ← same) b in
      after_dispatch r l.reported (l.running ++ pairs) (dispatch c skeleton target_keys l.state).0
        (dispatch c skeleton target_keys l.state).1 booked (ap (λ x. x.items) q ∙ h.queued)

  report-IsSound :
      (before after reported : List Pair) (pair : Pair) (s : State)
      → IsSound (record { running = before ++ pair ∷ after; reported = reported; state = s })
      → IsSound (record {
        running = before ++ after;
        reported = reported ++ pair ∷ [];
        state = report pair s;
      })
  unfolding report
  report-IsSound before after reported pair s h = record {
    booked = record {
      source_taken = λ k. h.booked.source_taken k ∙ moved_sources k;
      target_taken = λ k. h.booked.target_taken k ∙ moved_targets k;
    };
    queued = ap (λ items. items ++ tid_of_pair pair ∷ []) h.queued ∙ sym (map-snoc reported);
  }
    where
      map-snoc :
          (ps : List Pair)
          → map tid_of_pair (ps ++ pair ∷ []) ≡ map tid_of_pair ps ++ tid_of_pair pair ∷ []
      map-snoc [] = refl
      map-snoc (p ∷ ps) = ap (λ r. tid_of_pair p ∷ r) (map-snoc ps)

      moved_sources :
          (k : ℤ)
          → count k (sources (reported ++ (before ++ pair ∷ after)))
            ≡ count k (sources ((reported ++ pair ∷ []) ++ (before ++ after)))
      moved_sources k = omega (
        arith,
        count-sources k reported (before ++ pair ∷ after),
        count-sources k before (pair ∷ after),
        count-sources k (pair ∷ []) after,
        count-sources k (reported ++ pair ∷ []) (before ++ after),
        count-sources k reported (pair ∷ []),
        count-sources k before after,
      )

      moved_targets :
          (k : ℤ)
          → count k (targets (reported ++ (before ++ pair ∷ after)))
            ≡ count k (targets ((reported ++ pair ∷ []) ++ (before ++ after)))
      moved_targets k = omega (
        arith,
        count-targets k reported (before ++ pair ∷ after),
        count-targets k before (pair ∷ after),
        count-targets k (pair ∷ []) after,
        count-targets k (reported ++ pair ∷ []) (before ++ after),
        count-targets k reported (pair ∷ []),
        count-targets k before after,
      )

  Step-IsSound : {l m : Life} → Step c skeleton target_keys l m → IsSound l → IsSound m
  Step-IsSound (generator_round l r pairs pushes) h = round-IsSound l r pairs h pushes
  Step-IsSound (migration_ends before after reported pair s) h =
      report-IsSound before after reported pair s h
  Step-IsSound (task_queue_changes l queue) h = record {
    booked = record { source_taken = h.booked.source_taken; target_taken = h.booked.target_taken };
    queued = h.queued;
  }

  pub Reach-from :
      (s : State) (l : Life)
      → IsBooked [] s
      → s.result_queue.items ≡ []
      → Reach c skeleton target_keys (record { running = []; reported = []; state = s }) l
      → IsSound l
  Reach-from s l b empty here = record { booked = b; queued = empty }
  Reach-from s l b empty (next r step) = Step-IsSound step (Reach-from s _ b empty r)
