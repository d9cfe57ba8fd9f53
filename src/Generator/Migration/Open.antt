-- ===== src/Generator/Migration/Open.antt =====
-- The open migrations of task/generator/lustre_ost_migration_task_generator.py: the tasks that were
-- pushed and have not been reported as finished.
use cyclone_distributed_task.Prelude.{
  ◌+◌, ◌≡◌, refl, some, List, [], ◌∷◌, ◌++◌, Option, Text, ℤ, arith, append-nil, append_assoc, ap,
  ◌∙◌, sym,
}
use cyclone_distributed_task.Task.Object.{Task}
use cyclone_distributed_task.Generator.Migration.State.{State}
use cyclone_distributed_task.Generator.Migration.Tid.{tid_of}
use cyclone_distributed_task.Generator.Migration.Booking.{taken, count, count-append}

abbrev pub Pair : Type 0
Pair = ℤ × ℤ

abbrev pub sources : List Pair → List ℤ
sources [] = []
sources ((source, target) ∷ pairs) = source ∷ sources pairs

abbrev pub targets : List Pair → List ℤ
targets [] = []
targets ((source, target) ∷ pairs) = target ∷ targets pairs

abbrev pub tid_of_pair : Pair → Text
tid_of_pair (source, target) = tid_of source target

abbrev pub tids : List Task → List (Option Text)
tids [] = []
tids (task ∷ tasks) = task.tid ∷ tids tasks

abbrev pub pair_tids : List Pair → List (Option Text)
pair_tids [] = []
pair_tids (pair ∷ pairs) = some (tid_of_pair pair) ∷ pair_tids pairs

-- An OST is taken as often as it is a source of the open migrations, and likewise for the targets.
pub record IsBooked (open_pairs : List Pair) (s : State) : Type 0 where
  pub source_taken : (k : ℤ) → taken k s.ost_source_state_dict ≡ count k (sources open_pairs)
  pub target_taken : (k : ℤ) → taken k s.ost_target_state_dict ≡ count k (targets open_pairs)

-- From `s` to `t`, tasks for these pairs were pushed, their OSTs were taken, and nothing else
-- was taken or released.
pub record HasOpened (pairs : List Pair) (s t : State) : Type 0 where
  pub pushed : tids t.task_queue.items ≡ tids s.task_queue.items ++ pair_tids pairs
  pub source_opened :
      (k : ℤ)
      → taken k t.ost_source_state_dict ≡ taken k s.ost_source_state_dict + count k (sources pairs)
  pub target_opened :
      (k : ℤ)
      → taken k t.ost_target_state_dict ≡ taken k s.ost_target_state_dict + count k (targets pairs)
  pub same_results : t.result_queue ≡ s.result_queue

abbrev pub Opens : State → State → Type 0
Opens s t = (pairs : List Pair) × HasOpened pairs s t

sources-append : (xs ys : List Pair) → sources (xs ++ ys) ≡ sources xs ++ sources ys
sources-append [] ys = refl
sources-append (x ∷ xs) ys = ap (λ r. x.0 ∷ r) (sources-append xs ys)

targets-append : (xs ys : List Pair) → targets (xs ++ ys) ≡ targets xs ++ targets ys
targets-append [] ys = refl
targets-append (x ∷ xs) ys = ap (λ r. x.1 ∷ r) (targets-append xs ys)

pair_tids-append : (xs ys : List Pair) → pair_tids (xs ++ ys) ≡ pair_tids xs ++ pair_tids ys
pair_tids-append [] ys = refl
pair_tids-append (x ∷ xs) ys = ap (λ r. some (tid_of_pair x) ∷ r) (pair_tids-append xs ys)

pub tids-append : (xs ys : List Task) → tids (xs ++ ys) ≡ tids xs ++ tids ys
tids-append [] ys = refl
tids-append (x ∷ xs) ys = ap (λ r. x.tid ∷ r) (tids-append xs ys)

pub count-sources :
    (k : ℤ) (xs ys : List Pair)
    → count k (sources (xs ++ ys)) ≡ count k (sources xs) + count k (sources ys)
count-sources k xs ys = rw (sources-append xs ys) (count-append k (sources xs) (sources ys))

pub count-targets :
    (k : ℤ) (xs ys : List Pair)
    → count k (targets (xs ++ ys)) ≡ count k (targets xs) + count k (targets ys)
count-targets k xs ys = rw (targets-append xs ys) (count-append k (targets xs) (targets ys))

-- With the same states, tasks and results, no task was pushed.
pub quiet :
    (s t : State)
    → t.ost_source_state_dict ≡ s.ost_source_state_dict
    → t.ost_target_state_dict ≡ s.ost_target_state_dict
    → t.task_queue ≡ s.task_queue
    → t.result_queue ≡ s.result_queue
    → Opens s t
unfolding count
quiet s t same_sources same_targets same_tasks same_result = (
  [],
  record {
    pushed = ap (λ q. tids q.items) same_tasks ∙ sym (append-nil _);
    source_opened = λ k. omega (arith, ap (taken k) same_sources);
    target_opened = λ k. omega (arith, ap (taken k) same_targets);
    same_results = same_result;
  },
)

pub then-Opens : (s t u : State) → Opens s t → Opens t u → Opens s u
then-Opens s t u (xs, h) (ys, g) = (
  xs ++ ys,
  record {
    pushed =
        rw (g.pushed, h.pushed, pair_tids-append xs ys)
          (append_assoc (tids s.task_queue.items) (pair_tids xs) (pair_tids ys));
    source_opened = λ k. omega (arith, h.source_opened k, g.source_opened k, count-sources k xs ys);
    target_opened = λ k. omega (arith, h.target_opened k, g.target_opened k, count-targets k xs ys);
    same_results = g.same_results ∙ h.same_results;
  },
)

pub opens-IsBooked :
    (open_pairs pairs : List Pair) (s t : State)
    → IsBooked open_pairs s
    → HasOpened pairs s t
    → IsBooked (open_pairs ++ pairs) t
opens-IsBooked open_pairs pairs s t b h = record {
  source_taken =
      λ k. omega (arith, b.source_taken k, h.source_opened k, count-sources k open_pairs pairs);
  target_taken =
      λ k. omega (arith, b.target_taken k, h.target_opened k, count-targets k open_pairs pairs);
}
