-- ===== src/Master/Exit.antt =====
-- The exit code of cyclone-master.py.
use cyclone_distributed_task.Prelude.{
  if◌then◌else◌, Option, none, some, sym, ◌∙◌, ◌≡◌, refl, true, false, List, ℕ, zero, suc, arith,
  Bool, ◌↔◌,
}
use cyclone_distributed_task.Py.Result.{◌>>◌, Result, ok, err}
use cyclone_distributed_task.Master.State.{Config, start}
use cyclone_distributed_task.Master.Counting.{raised_rounds, run-counts}
use cyclone_distributed_task.Master.Loop.{Event, run}
use cyclone_distributed_task.Master.Process.{
  Action, Outside, main, main_block, started, created, exit_code, behind_lock, finish_main,
  count_error, end_generator, not_ended,
}

-- The exit code, if the process has ended
abbrev pub code_of : Option (ℕ × List Action) → Option ℕ
code_of none = none
code_of (some (code, actions)) = some code

abbrev Exits : Option (ℕ × List Action) → Type 0
Exits m = code_of m ≡ some 0

some-zero : (n : ℕ) → some n ≡ some 0 → n ≡ 0
some-zero n e = cc e

module _ (c : Config) (o : Outside) (events : List Event) where
  -- Nothing fails: not the calls before the loop, no round of it, and nothing after it.
  pub record IsSmooth : Type 0 where
    pub lock_taken : o.locked ≡ ok true
    pub connected : o.connects ≡ ok tt
    pub generator_created : o.creates ≡ ok tt
    pub generator_started : o.starts ≡ ok tt
    pub loop_left : (run c events (start c)).run_flag ≡ false
    pub no_error : raised_rounds c events (start c) ≡ 0
    pub closed : o.closes ≡ ok tt
    pub generator_ended : (end_generator o.process not_ended).0 ≡ ok tt

  -- The count at the end is that of the rounds that raised.
  count-raised : (run c events (start c)).error_count ≡ raised_rounds c events (start c)
  count-raised = omega (arith, run-counts c events (start c))

  exit_code-zero : (n : ℕ) → exit_code n ≡ 0 → n ≡ 0
  unfolding exit_code
  exit_code-zero zero e = refl
  exit_code-zero (suc n) e = ground arith

  count_error-zero : (r : Result (Unit {0})) (n : ℕ) → count_error r n ≡ 0 → (r ≡ ok tt) × (n ≡ 0)
  unfolding count_error
  count_error-zero (ok _) n e = (refl, e)
  count_error-zero (err x) n e = ground arith

  finish_main-zero :
      (n : ℕ)
      → Exits (finish_main o (some (n, true)))
      → ((end_generator o.process not_ended).0 ≡ ok tt) × (n ≡ 0)
  unfolding finish_main
  finish_main-zero n e =
      count_error-zero (end_generator o.process not_ended).0 n (exit_code-zero _ (some-zero _ e))

  failed-before : (n : ℕ) → Exits (finish_main o (some (suc n, false))) → ⊥
  unfolding finish_main
  failed-before n e =
      let none_failed = exit_code-zero (suc n) (some-zero _ e) in omega (arith, none_failed)

  smooth-Exits : IsSmooth → Exits (main c o events)
  unfolding main main_block behind_lock started created finish_main count_error exit_code
  smooth-Exits h = simp (
    h.lock_taken, h.connected, h.generator_created, h.generator_started, h.loop_left,
    h.generator_ended, h.closed, count-raised, h.no_error,
  )

  started-zero :
      (r : Result (Unit {0}))
      → Exits (finish_main o (started c o events r))
      → (r ≡ ok tt)
        × ((end_generator o.process not_ended).0 ≡ ok tt)
        × (o.closes ≡ ok tt)
        × ((run c events (start c)).run_flag ≡ false)
        × (raised_rounds c events (start c) ≡ 0)
  unfolding started
  started-zero (err x) e =
      let (_, none_caught) = finish_main-zero 1 e in absurd (omega (arith, none_caught))
  started-zero (ok _) e = by_flag (run c events (start c)).run_flag refl e
    where
      by_flag :
          (running : Bool)
          → (run c events (start c)).run_flag ≡ running
          → Exits (
              finish_main o (
                if running
                then none
                else some (count_error o.closes (run c events (start c)).error_count, true)))
          → (ok tt ≡ (let r : Result (Unit {0}) = ok tt in r))
            × ((end_generator o.process not_ended).0 ≡ ok tt)
            × (o.closes ≡ ok tt)
            × ((run c events (start c)).run_flag ≡ false)
            × (raised_rounds c events (start c) ≡ 0)
      by_flag true runs e = unfold finish_main in cc e
      by_flag false left e =
          let (ended, sum) = finish_main-zero _ e in
          let (closes, none_caught) = count_error-zero o.closes _ sum in
          (refl, ended, closes, left, sym count-raised ∙ none_caught)

  created-zero :
      (r : Result (Unit {0}))
      → Exits (finish_main o (created c o events r))
      → (r ≡ ok tt) × Exits (finish_main o (started c o events o.starts))
  unfolding created
  created-zero (err x) e = absurd (failed-before 0 e)
  created-zero (ok _) e = (refl, e)

  behind_lock-zero :
      (l : Result Bool)
      → Exits (behind_lock c o events l)
      → (l ≡ ok true) × Exits (finish_main o (main_block c o events))
  unfolding behind_lock
  behind_lock-zero (err x) e = absurd (failed-before 0 e)
  behind_lock-zero (ok false) e = let one = some-zero 1 e in absurd (omega (arith, one))
  behind_lock-zero (ok true) e = (refl, e)

  both-ok : (a b : Result (Unit {0})) → (a >> b) ≡ ok tt → (a ≡ ok tt) × (b ≡ ok tt)
  both-ok (ok _) b e = (refl, e)
  both-ok (err x) b e = cc e

  exits-IsSmooth : Exits (main c o events) → IsSmooth
  unfolding main main_block
  exits-IsSmooth e =
      let (locked, block) = behind_lock-zero o.locked e in
      let (before, from_start) = created-zero (o.connects >> o.creates) block in
      let (connects, creates) = both-ok o.connects o.creates before in
      let (starts, ended, closes, left, none_caught) = started-zero o.starts from_start in
      record {
        lock_taken = locked;
        connected = connects;
        generator_created = creates;
        generator_started = starts;
        loop_left = left;
        no_error = none_caught;
        closed = closes;
        generator_ended = ended;
      }

-- The master ends with the exit code 0 exactly when its loop has ended and nothing failed: the lock is taken, the
-- calls before the loop and the start of the generator raise nothing, no round of the loop raises (not in a handler, not
-- in `recv_string` or `send_string`), and neither the closing of what `main` uses nor the signal to the generator raises.
pub main-smooth :
    (c : Config) (o : Outside) (events : List Event)
    → IsSmooth c o events ↔ (code_of (main c o events) ≡ some 0)
main-smooth c o events = (smooth-Exits c o events, exits-IsSmooth c o events)
