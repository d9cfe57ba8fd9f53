-- ===== src/Master/Invariant.antt =====
-- What holds of the master's variables in every interleaving of its rounds with the other processes.
pub mod Handlers
pub mod Runs
use cyclone_distributed_task.Prelude.{
  ◌<◌, ◌≡◌, ◌≢◌, refl, true, false, Bool, Option, none, some, List, [], ◌∷◌, arith, Text, All,
  option_eq, ◌==◌, eq_iff, Bool-cases, inl, inr, if◌then◌else◌, Option-cases,
}
use cyclone_distributed_task.Py.Result.{Result, ok, err, Error}
use cyclone_distributed_task.Py.Exec.{◌>>◌, ◌>>=◌, and_then, lift, pure, raise}
use cyclone_distributed_task.Py.Dict.{Dict, get, get-put, put}
use cyclone_distributed_task.Ctrl.SharedQueue.{pop_nowait}
use cyclone_distributed_task.Ctrl.TaskStatus.{TaskStatusItem}
use cyclone_distributed_task.Task.Object.{Task}
use cyclone_distributed_task.Master.State.{Config, MasterState, Round}
use cyclone_distributed_task.Master.Handlers.{
  Handler, handle_request, take_task, offer, assign, assign_again, wait,
}
use cyclone_distributed_task.Master.Assignment.{offer-new, offer-known}

abbrev pub StatusDict : Type 0
StatusDict = Dict (Option Text) TaskStatusItem

-- A status is kept under the id that it names.
abbrev pub IsKeyed : StatusDict → Type 0
IsKeyed d = (k : Option Text) (item : TaskStatusItem) → get k d ≡ some item → item.tid ≡ k

-- Each result is the id of a task that has a status.
abbrev pub AreKnown : StatusDict → List Text → Type 0
AreKnown d = All (λ t. get (some t) d ≢ none)

pub record IsConsistent (s : MasterState) : Type 0 where
  pub keyed : IsKeyed s.task_status_dict
  pub known : AreKnown s.task_status_dict s.result_queue.items
  pub errors : s.run_flag ≡ true → s.error_count < 100

pub put-IsKeyed :
    (k : Option Text) (item : TaskStatusItem) (d : StatusDict)
    → item.tid ≡ k
    → IsKeyed d
    → IsKeyed (put k item d)
put-IsKeyed k item d e h j x p = elim (Bool-cases (k == j)) [
  | inl y ↦ ground (arith, eq_iff k j, get-put k j item d)
  | inr n ↦ h j x (ground (arith, get-put k j item d))
]

pub put-AreKnown :
    (k : Option Text) (item : TaskStatusItem) (d : StatusDict) (l : List Text)
    → AreKnown d l
    → AreKnown (put k item d) l
put-AreKnown k item d [] h = tt
put-AreKnown k item d (t ∷ l) h =
    (λ e. h.0 (ground (arith, get-put k (some t) item d)), put-AreKnown k item d l h.1)

-- A handler keeps the invariant, whether it returns or raises.
pub record Keeps {A : Type 0} (m : Handler A) : Type 0 where
  pub at : (s : MasterState) → IsConsistent s → IsConsistent (m s).1

pub Keeps-and_then :
    {A B : Type 0} (r : Result A) (f : A → Handler B) (s : MasterState)
    → ((a : A) → Keeps (f a))
    → IsConsistent s
    → IsConsistent (and_then r f s).1
Keeps-and_then (ok a) f s kf h = (kf a).at s h
Keeps-and_then (err e) f s kf h = h

pub Keeps-bind :
    {A B : Type 0} (m : Handler A) (f : A → Handler B)
    → Keeps m
    → ((a : A) → Keeps (f a))
    → Keeps (m >>= f)
Keeps-bind m f km kf = record { at = λ s h. Keeps-and_then (m s).0 f (m s).1 kf (km.at s h) }

pub Keeps-then :
    {B : Type 0} (m : Handler (Unit {0})) (k : Handler B) → Keeps m → Keeps k → Keeps (m >> k)
Keeps-then m k km kk = record {
  at = λ s h. Keeps-and_then (m s).0 (λ _. k) (m s).1 (λ _. kk) (km.at s h);
}

pub Keeps-if :
    {A : Type 0} (b : Bool) (m n : Handler A) → Keeps m → Keeps n → Keeps (if b then m else n)
Keeps-if true m n km kn = km
Keeps-if false m n km kn = kn

pub Keeps-lift : {A : Type 0} (r : Result A) → Keeps (lift r)
Keeps-lift r = record { at = λ s h. h }

pub Keeps-pure : {A : Type 0} (a : A) → Keeps (pure a)
Keeps-pure a = record { at = λ s h. h }

pub Keeps-raise : {A : Type 0} (e : Error) → Keeps (raise {A = A} e)
Keeps-raise e = record { at = λ s h. h }

pub ruleset keeps_rules = (Keeps-bind, Keeps-then, Keeps-if, Keeps-lift, Keeps-pure, Keeps-raise)

-- A state that differs only in what the invariant does not speak of, or has stopped.
pub IsConsistent-of_same :
    (s s' : MasterState)
    → s'.task_status_dict ≡ s.task_status_dict
    → s'.result_queue ≡ s.result_queue
    → s'.error_count ≡ s.error_count
    → (s'.run_flag ≡ true → s.run_flag ≡ true)
    → IsConsistent s
    → IsConsistent s'
IsConsistent-of_same s s' d q n f h = record {
  keyed = rw d h.keyed;
  known = rw (d, q) h.known;
  errors = λ e. rw n (h.errors (f e));
}
