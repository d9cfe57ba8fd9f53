-- ===== src/Generator/Base.antt =====
-- What all generators inherit (task/generator/base_task_generator.py): the start, the signal to terminate, and the sleep
-- that it interrupts (util/interruptable_sleep.py). Times are in milliseconds.
pub mod Sleep
use cyclone_distributed_task.Prelude.{
  true, false, Bool, ℕ, zero, suc, ◌+◌, ◌*◌, ◌/◌, ◌%◌, ◌≤◌, arith, if◌then◌else◌, nat_beq, ltb, leb,
}
use cyclone_distributed_task.Py.Result.{Result}
use cyclone_distributed_task.Py.Exec.{Exec, lift, modify, ◌>>◌}

-- The flags of the process, and how long it has slept
pub record BaseTaskGenerator : Type 0 where
  pub run_flag : Bool
  pub do_sleep : Bool
  pub slept : ℕ

abbrev pub new_generator : BaseTaskGenerator
new_generator = record { run_flag = false; do_sleep = false; slept = 0 }

-- `start`, up to the fork
unfoldable pub start : Result (Unit {0}) → Exec BaseTaskGenerator (Unit {0})
start validated = do lift validated; modify (λ g. record g { run_flag = true })

-- `InterruptableSleep.interrupt`
unfoldable pub interrupt : BaseTaskGenerator → BaseTaskGenerator
interrupt g = if g.do_sleep then record g { do_sleep = false } else g

unfoldable pub signal_handler_terminate : BaseTaskGenerator → BaseTaskGenerator
signal_handler_terminate g = interrupt (record g { run_flag = false })

-- `time.sleep`, in which the signal may come: the handler runs, and the rest of the time is slept.
unfoldable pub time_sleep : ℕ → Bool → BaseTaskGenerator → BaseTaskGenerator
time_sleep time signalled g =
    let after = record g { slept = g.slept + time } in
    if signalled then signal_handler_terminate after else after

-- `round` of seconds: a half goes to the even number.
unfoldable pub round : ℕ → ℕ
round time =
    if ltb (time % 1000) 500
    then time / 1000
    else if ltb 500 (time % 1000)
    then suc (time / 1000)
    else time / 1000 + (time / 1000) % 2

unfoldable pub total_of : ℕ → ℕ
total_of time = if nat_beq (time % 1000) 0 then time / 1000 else round time

-- `for _ in range(0, total)`, from the second i on; the signal comes in the seconds where `signals` says so.
unfoldable pub sleep_seconds : (ℕ → Bool) → ℕ → ℕ → BaseTaskGenerator → BaseTaskGenerator
sleep_seconds signals i zero g = g
sleep_seconds signals i (suc n) g = elim g.do_sleep [
  | false ↦ g
  | true ↦ sleep_seconds signals (suc i) n (time_sleep 1000 (signals i) g)
]

-- `InterruptableSleep.sleep`
unfoldable pub sleep : ℕ → (ℕ → Bool) → BaseTaskGenerator → BaseTaskGenerator
sleep time signals g =
    if leb time 1000
    then time_sleep time (signals 0) g
    else sleep_seconds signals 0 (total_of time) (record g { do_sleep = true })

-- The whole seconds differ from the time by half a second at most.
pub total_of-close :
    (time : ℕ) → (1000 * total_of time ≤ time + 500) × (time ≤ 1000 * total_of time + 500)
unfolding total_of round
total_of-close time = ground arith
