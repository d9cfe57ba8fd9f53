-- ===== src/Master/Process.antt =====
-- The end of `main` of cyclone-master.py: how the master ends the process of its task generator, and its exit code.
use cyclone_distributed_task.Prelude.{
  Option, none, some, true, false, Bool, List, [], ◌∷◌, ◌++◌, ℕ, zero, suc, if◌then◌else◌, nat_beq,
}
use cyclone_distributed_task.Py.Result
use cyclone_distributed_task.Py.Result.{Result, ok, err}
use cyclone_distributed_task.Py.Exec.{Exec, pure, lift, modify, ◌>>=◌, ◌>>◌}
use cyclone_distributed_task.Master.State.{Config, start}
use cyclone_distributed_task.Master.Loop.{Event, run}

-- What the master does to the process
pub data Action : Type 0 where
  kill_sigusr1 sleep_second terminate join : Action

-- The process of the generator: what the calls of `is_alive` answer, by their number, and `os.kill`
pub record GeneratorProcess : Type 0 where
  pub alive : ℕ → Bool
  pub kills : Result (Unit {0})

pub record Ending : Type 0 where
  pub checks : ℕ
  pub actions : List Action

abbrev pub Handler : Type 0 → Type 0
Handler = Exec Ending

unfoldable pub is_alive : GeneratorProcess → Handler Bool
is_alive p s = (ok (p.alive s.checks), record s { checks = suc s.checks })

unfoldable pub act : Action → Handler (Unit {0})
act a = modify (λ s. record s { actions = s.actions ++ a ∷ [] })

-- `for _ in range(0, n, 1)`
unfoldable pub wait_up_to : GeneratorProcess → ℕ → Handler (Unit {0})
wait_up_to p zero = pure tt
wait_up_to p (suc n) = do
  up ← is_alive p
  elim up [ true ↦ (do act sleep_second; wait_up_to p n) | false ↦ pure tt ]

unfoldable pub end_by_force : GeneratorProcess → Handler (Unit {0})
end_by_force p = do up ← is_alive p; if up then (do act terminate; act join) else pure tt

unfoldable pub end_generator : GeneratorProcess → Handler (Unit {0})
end_generator p = do
  up ← is_alive p
  elim up [
    | true ↦ (do lift p.kills; act kill_sigusr1; wait_up_to p 10; end_by_force p)
    | false ↦ pure tt
  ]

-- What `main` reads from outside: whether the lock is taken (or why it comes to no lock), the calls before the loop, and
-- the `__exit__` of the objects that it uses
pub record Outside : Type 0 where
  pub locked : Result Bool
  pub connects : Result (Unit {0})
  pub creates : Result (Unit {0})
  pub starts : Result (Unit {0})
  pub closes : Result (Unit {0})
  pub process : GeneratorProcess

-- The number of exceptions behind the main block, and whether there is a generator; `none` while the loop still runs
abbrev pub MainBlock : Type 0
MainBlock = Option (ℕ × Bool)

-- `error_count += 1` of an `except` block
unfoldable pub count_error : Result (Unit {0}) → ℕ → ℕ
count_error (ok _) n = n
count_error (err e) n = suc n

-- From the start of the generator on
unfoldable pub started : Config → Outside → List Event → Result (Unit {0}) → MainBlock
started c o events (err e) = some (1, true)
started c o events (ok _) =
    let s = run c events (start c) in
    if s.run_flag then none else some (count_error o.closes s.error_count, true)

unfoldable pub created : Config → Outside → List Event → Result (Unit {0}) → MainBlock
created c o events (err e) = some (1, false)
created c o events (ok _) = started c o events o.starts

unfoldable pub main_block : Config → Outside → List Event → MainBlock
main_block c o events = created c o events (Result.◌>>◌ o.connects o.creates)

abbrev pub not_ended : Ending
not_ended = record { checks = 0; actions = [] }

-- `sys.exit`
unfoldable pub exit_code : ℕ → ℕ
exit_code error_count = if nat_beq error_count 0 then 0 else 1

-- What follows the main block
unfoldable pub finish_main : Outside → MainBlock → Option (ℕ × List Action)
finish_main o none = none
finish_main o (some (error_count, false)) = some (exit_code error_count, [])
finish_main o (some (error_count, true)) =
    let (result, ended) = end_generator o.process not_ended in
    some (exit_code (count_error result error_count), ended.actions)

unfoldable pub behind_lock : Config → Outside → List Event → Result Bool → Option (ℕ × List Action)
behind_lock c o events (err e) = finish_main o (some (1, false))
behind_lock c o events (ok false) = some (1, [])
behind_lock c o events (ok true) = finish_main o (main_block c o events)

-- The exit code, and what is done to the process of the generator; `none` while the loop still runs
unfoldable pub main : Config → Outside → List Event → Option (ℕ × List Action)
main c o events = behind_lock c o events o.locked
