-- ===== src/Master/Counting/Rules.antt =====
-- Handlers of the loop of cyclone-master.py that count no exceptions themselves.
use cyclone_distributed_task.Prelude.{
  text_eq, option_eq, ◌≡◌, refl, ◌∙◌, true, false, Bool, if◌then◌else◌,
}
use cyclone_distributed_task.Py.Result.{Result, Error, ok, err}
use cyclone_distributed_task.Py.Exec.{raise, pure, lift, and_then, ◌>>=◌, ◌>>◌}
use cyclone_distributed_task.Master.State.{MasterState}
use cyclone_distributed_task.Master.Handlers.{Handler}

-- A handler does not count exceptions itself.
pub record LeavesCount {A : Type 0} (m : Handler A) : Type 0 where
  pub at : (s : MasterState) → (m s).1.error_count ≡ s.error_count

pub LeavesCount-and_then :
    {A B : Type 0} (r : Result A) (f : A → Handler B) (s : MasterState)
    → ((a : A) → LeavesCount (f a))
    → (and_then r f s).1.error_count ≡ s.error_count
LeavesCount-and_then (ok a) f s kf = (kf a).at s
LeavesCount-and_then (err e) f s kf = refl

pub LeavesCount-bind :
    {A B : Type 0} (m : Handler A) (f : A → Handler B)
    → LeavesCount m
    → ((a : A) → LeavesCount (f a))
    → LeavesCount (m >>= f)
LeavesCount-bind m f km kf = record {
  at = λ s. LeavesCount-and_then (m s).0 f (m s).1 kf ∙ km.at s;
}

pub LeavesCount-then :
    {B : Type 0} (m : Handler (Unit {0})) (k : Handler B)
    → LeavesCount m
    → LeavesCount k
    → LeavesCount (m >> k)
LeavesCount-then m k km kk = record {
  at = λ s. LeavesCount-and_then (m s).0 (λ _. k) (m s).1 (λ _. kk) ∙ km.at s;
}

pub LeavesCount-if :
    {A : Type 0} (b : Bool) (m n : Handler A)
    → LeavesCount m
    → LeavesCount n
    → LeavesCount (if b then m else n)
LeavesCount-if true m n km kn = km
LeavesCount-if false m n km kn = kn

pub LeavesCount-lift : {A : Type 0} (r : Result A) → LeavesCount (lift r)
LeavesCount-lift r = record { at = λ s. refl }

pub LeavesCount-pure : {A : Type 0} (a : A) → LeavesCount (pure a)
LeavesCount-pure a = record { at = λ s. refl }

pub LeavesCount-raise : {A : Type 0} (e : Error) → LeavesCount (raise {A = A} e)
LeavesCount-raise e = record { at = λ s. refl }

pub ruleset count_rules = (
  LeavesCount-bind, LeavesCount-then, LeavesCount-if, LeavesCount-lift, LeavesCount-pure,
  LeavesCount-raise,
)
