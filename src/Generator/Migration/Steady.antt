-- ===== src/Generator/Migration/Steady.antt =====
-- The calls of task/generator/lustre_ost_migration_task_generator.py that take and release no OST,
-- and push and pop nothing.
use cyclone_distributed_task.Prelude.{
  ◌≡◌, refl, true, false, List, [], ◌∷◌, ℤ, int_eq, if◌then◌else◌, Bool, ◌∙◌, ap,
}
use cyclone_distributed_task.Py.Result.{Result, ok, err}
use cyclone_distributed_task.Py.Exec.{and_then, lift, pure, gets, ◌>>=◌, ◌>>◌}
use cyclone_distributed_task.Generator.Migration.State.{State}
use cyclone_distributed_task.Generator.Migration.Ost.{Handler, for_each}
use cyclone_distributed_task.Generator.Migration.Booking.{taken}

-- The same OSTs are taken, and the queues are the same.
pub record IsSteady (s t : State) : Type 0 where
  pub source_kept : (k : ℤ) → taken k t.ost_source_state_dict ≡ taken k s.ost_source_state_dict
  pub target_kept : (k : ℤ) → taken k t.ost_target_state_dict ≡ taken k s.ost_target_state_dict
  pub tasks_kept : t.task_queue ≡ s.task_queue
  pub results_kept : t.result_queue ≡ s.result_queue

pub still :
    (s t : State)
    → t.ost_source_state_dict ≡ s.ost_source_state_dict
    → t.ost_target_state_dict ≡ s.ost_target_state_dict
    → t.task_queue ≡ s.task_queue
    → t.result_queue ≡ s.result_queue
    → IsSteady s t
still s t a b c d = record {
  source_kept = λ k. ap (taken k) a;
  target_kept = λ k. ap (taken k) b;
  tasks_kept = c;
  results_kept = d;
}

pub IsSteady-trans : (s t u : State) → IsSteady s t → IsSteady t u → IsSteady s u
IsSteady-trans s t u h g = record {
  source_kept = λ k. g.source_kept k ∙ h.source_kept k;
  target_kept = λ k. g.target_kept k ∙ h.target_kept k;
  tasks_kept = g.tasks_kept ∙ h.tasks_kept;
  results_kept = g.results_kept ∙ h.results_kept;
}

-- A call that is steady from each state
pub record Steady {A : Type 0} (m : Handler A) : Type 0 where
  pub steady : (s : State) → IsSteady s (m s).1

pub bind-Steady :
    {A B : Type 0} (m : Handler A) (f : A → Handler B)
    → Steady m
    → ((a : A) → Steady (f a))
    → Steady (m >>= f)
bind-Steady m f h g = record { steady = λ s. go s (m s) (h.steady s) }
  where
    go : (s : State) (r : Result _ × State) → IsSteady s r.1 → IsSteady s (and_then r.0 f r.1).1
    go s (ok a, t) k = IsSteady-trans s t _ k ((g a).steady t)
    go s (err e, t) k = k

pub seq-Steady :
    {B : Type 0} (m : Handler (Unit {0})) (k : Handler B) → Steady m → Steady k → Steady (m >> k)
seq-Steady m k h g = bind-Steady m (λ _. k) h (λ _. g)

pub pure-Steady : {A : Type 0} (a : A) → Steady (pure a)
pure-Steady a = record { steady = λ s. still s _ refl refl refl refl }

pub gets-Steady : {A : Type 0} (f : State → A) → Steady (gets f)
gets-Steady f = record { steady = λ s. still s _ refl refl refl refl }

pub lift-Steady : {A : Type 0} (r : Result A) → Steady (lift r)
lift-Steady r = record { steady = λ s. still s _ refl refl refl refl }

pub if_Steady :
    {A : Type 0} (b : Bool) (x y : Handler A) → Steady x → Steady y → Steady (if b then x else y)
if_Steady true x y h g = h
if_Steady false x y h g = g

pub for_each-Steady :
    {A : Type 0} (body : A → Handler (Unit {0})) (xs : List A)
    → ((x : A) → Steady (body x))
    → Steady (for_each body xs)
unfolding for_each
for_each-Steady body [] h = pure-Steady tt
for_each-Steady body (x ∷ xs) h = seq-Steady (body x) _ (h x) (for_each-Steady body xs h)

pub ruleset steady_rules =
    (bind-Steady, seq-Steady, pure-Steady, gets-Steady, lift-Steady, if_Steady, for_each-Steady)
