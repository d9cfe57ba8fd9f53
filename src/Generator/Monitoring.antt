-- ===== src/Generator/Monitoring.antt =====
-- task/generator/lustre_ost_monitoring_task_generator.py. A set of indices is a list with each index
-- once, in the order in which Python goes through it. The task's class is one that has an attribute
-- `ost_idx` with no more checks for an `int`.
use cyclone_distributed_task.Prelude.{
  Bool, true, false, not, ◌&&◌, ◌||◌, some, List, [], ◌∷◌, Text, codes, ℤ, int_eq, ◌==◌, length,
  ltb, is_nil, if◌then◌else◌, ◌≡◌, Bool-cases, refl, inr, inl, ℕ, zero, suc, pos,
}
use cyclone_distributed_task.Py.Result.{Result, ok, err, runtime_error, ◌>>=◌, ◌>>◌, raise_if}
use cyclone_distributed_task.Py.Int
use cyclone_distributed_task.Ctrl.SharedQueue.{SharedQueue}
use cyclone_distributed_task.Task.Object.{Task, int, set_tid, set_attribute, str, TaskClass}
use cyclone_distributed_task.Generator.Filling.{refill, refill_lem}
use cyclone_distributed_task.Task.Factory.{create_from_xml_info}
use cyclone_distributed_task.Task.Xml.{Element, read_task_definition}

-- `idx in indexes`
unfoldable pub is_member : ℤ → List ℤ → Bool
is_member x [] = false
is_member x (y ∷ ys) = x == y || is_member x ys

-- The loop over the selected indices
unfoldable pub select : List ℤ → List ℤ → Result (List ℤ)
select available [] = ok []
select available (selected_idx ∷ rest) =
    if is_member selected_idx available
    then (do built ← select available rest; ok (selected_idx ∷ built))
    else err runtime_error

-- `build_index_set`
unfoldable pub build_index_set : List ℤ → List ℤ → Result (List ℤ)
build_index_set selected_indexes available_indexes = do
  raise_if (is_nil available_indexes) runtime_error
  if is_nil selected_indexes then ok available_indexes else (do
    raise_if (ltb (length available_indexes) (length selected_indexes)) runtime_error
    built ← select available_indexes selected_indexes
    raise_if (is_nil built) runtime_error
    ok built)

-- A task for an index: `task.tid = ost_idx` turns the index into a text.
unfoldable pub task_for : Task → ℤ → Result Task
task_for skeleton ost_idx = do
  task ← set_tid skeleton (int ost_idx)
  ok (set_attribute task (codes "ost_idx") (int ost_idx))

-- The loop over the indices
unfoldable pub number_tasks : Task → List ℤ → Result (List Task)
number_tasks skeleton [] = ok []
number_tasks skeleton (ost_idx ∷ rest) = do
  task ← task_for skeleton ost_idx
  tasks ← number_tasks skeleton rest
  ok (task ∷ tasks)

-- The settings of the generator, with what the import of a class finds
pub record MonitorConfig : Type 0 where
  pub local_mode : Bool
  pub ost_select_set : List ℤ
  pub task_name : Text
  pub import_class : Text → Text → Result TaskClass

-- What one round reads from outside: the OSTs of the file system, and the file with the definitions of the tasks
pub record MonitorRound : Type 0 where
  pub component_states : Result (List ℤ)
  pub isfile : Bool
  pub parsed : Result Element

unfoldable pub create_skeleton : MonitorConfig → MonitorRound → Result Task
create_skeleton c r = do
  task_xml_info ← read_task_definition r.isfile r.parsed c.task_name
  create_from_xml_info c.import_class task_xml_info

-- `_create_task_list`
unfoldable pub create_task_list : MonitorConfig → MonitorRound → List ℤ → Result (List Task)
create_task_list c r ost_idx_set = do
  task_skeleton ← create_skeleton c r
  number_tasks task_skeleton ost_idx_set

-- `range(from, from + n)`
range_from : ℕ → ℕ → List ℤ
range_from zero i = []
range_from (suc n) i = pos i ∷ range_from n (suc i)

unfoldable pub available : MonitorConfig → MonitorRound → Result (List ℤ)
unfolding range_from
available c r = if c.local_mode then ok (range_from 100 0) else r.component_states

-- One round of the loop of `run`: the queue behind it
unfoldable pub monitor : MonitorConfig → MonitorRound → SharedQueue Task → Result (SharedQueue Task)
monitor c r q = do
  ost_avail_set ← available c r
  ost_idx_set ← build_index_set c.ost_select_set ost_avail_set
  task_list ← create_task_list c r ost_idx_set
  refill task_list q

abbrev pub all_in : List ℤ → List ℤ → Bool
all_in available [] = true
all_in available (x ∷ xs) = is_member x available && all_in available xs

-- The rule: no index is available, nothing is selected, or all that is selected is available.
abbrev pub index_rule : List ℤ → List ℤ → Result (List ℤ)
index_rule [] available = if is_nil available then err runtime_error else ok available
index_rule (x ∷ xs) available =
    if all_in available (x ∷ xs) && not (ltb (length available) (length (x ∷ xs)))
    then ok (x ∷ xs)
    else err runtime_error

-- The copies of the skeleton, each with an index as its id and its OST
abbrev pub copies : Task → List ℤ → List Task
copies skeleton [] = []
copies skeleton (x ∷ xs) =
    set_attribute (record skeleton { tid = some (Int.format x) }) (codes "ost_idx") (int x)
    ∷ copies skeleton xs

select_lem :
    (available selected : List ℤ)
    → select available selected
      ≡ (if all_in available selected then ok selected else err runtime_error)
unfolding select
select_lem available [] = refl
select_lem available (x ∷ xs) = elim (Bool-cases (is_member x available)) [
  | inr n ↦ rw n refl
  | inl y ↦ elim (Bool-cases (all_in available xs)) [
    | inl all ↦ rw (y, select_lem available xs, all) refl
    | inr some_out ↦ rw (y, select_lem available xs, some_out) refl
  ]
]

checks :
    (too_many all : Bool) (x : ℤ) (xs : List ℤ)
    → (raise_if too_many runtime_error >>= λ _.
        (if all then ok (x ∷ xs) else err runtime_error) >>= λ built.
        raise_if (is_nil built) runtime_error >> ok built)
      ≡ (if all && not too_many then ok (x ∷ xs) else err runtime_error)
checks true true x xs = refl
checks true false x xs = refl
checks false true x xs = refl
checks false false x xs = refl

build_index_set_lem :
    (selected available : List ℤ)
    → build_index_set selected available ≡ index_rule selected available
unfolding build_index_set is_member
build_index_set_lem [] [] = refl
build_index_set_lem [] (y ∷ ys) = refl
build_index_set_lem (x ∷ xs) [] = refl
build_index_set_lem (x ∷ xs) (y ∷ ys) =
    rw (select_lem (y ∷ ys) (x ∷ xs))
      (checks (ltb (length (y ∷ ys)) (length (x ∷ xs))) (all_in (y ∷ ys) (x ∷ xs)) x xs)

number_tasks-copies :
    (skeleton : Task) (indexes : List ℤ)
    → number_tasks skeleton indexes ≡ ok (copies skeleton indexes)
unfolding number_tasks task_for set_tid str
number_tasks-copies skeleton [] = refl
number_tasks-copies skeleton (x ∷ xs) = rw (number_tasks-copies skeleton xs) refl

-- What a round makes of the queue, whatever it held: the OSTs by the rule, and one copy of the skeleton for each
abbrev pub monitored : MonitorConfig → MonitorRound → Result (SharedQueue Task)
monitored c r = do
  ost_avail_set ← available c r
  indexes ← index_rule c.ost_select_set ost_avail_set
  skeleton ← create_skeleton c r
  ok (record { items = copies skeleton indexes })

-- A round raises exactly where the states of the components cannot be read, no index is available, something is
-- selected that is not available or is more than what is available, or the definition of the task cannot be read or gives
-- no task. Else the queue, whatever it held, holds exactly one copy of the task that the definition gives for each index
-- that is selected, or available if none is selected, with the index as its id and its OST.
pub monitor_lem :
    (c : MonitorConfig) (r : MonitorRound) (q : SharedQueue Task) → monitor c r q ≡ monitored c r
unfolding monitor create_task_list
monitor_lem c r q = by_available (available c r)
  where
    by_skeleton :
        (indexes : List ℤ) (skeleton : Result Task)
        → ((skeleton >>= λ s. number_tasks s indexes) >>= λ tasks. refill tasks q)
          ≡ (skeleton >>= λ s. ok (record { items = copies s indexes }))
    by_skeleton indexes (err e) = refl
    by_skeleton indexes (ok s) =
        rw (number_tasks-copies s indexes) (refill_lem (copies s indexes) q)

    by_indexes :
        (indexes : Result (List ℤ))
        → (indexes >>= λ is. create_task_list c r is >>= λ tasks. refill tasks q)
          ≡ (indexes >>= λ is. create_skeleton c r >>= λ s. ok (record { items = copies s is }))
    by_indexes (err e) = refl
    by_indexes (ok indexes) = by_skeleton indexes (create_skeleton c r)

    by_available :
        (avail : Result (List ℤ))
        → (avail >>= λ a. build_index_set c.ost_select_set a >>= λ is.
            create_task_list c r is >>= λ tasks. refill tasks q)
          ≡ (avail >>= λ a. index_rule c.ost_select_set a >>= λ is.
              create_skeleton c r >>= λ s. ok (record { items = copies s is }))
    by_available (err e) = refl
    by_available (ok a) =
        rw (build_index_set_lem c.ost_select_set a) (by_indexes (index_rule c.ost_select_set a))
