-- ===== src/Generator/Base/Sleep.antt =====
-- How long a generator sleeps (util/interruptable_sleep.py), and what the signal to terminate does to it.
use cyclone_distributed_task.Prelude.{
  ◌≡◌, refl, true, false, Bool, ℕ, zero, suc, ◌+◌, ◌*◌, ◌≤◌, ◌<◌, arith, leb, ◌∙◌, ap,
}
use cyclone_distributed_task.Generator.Base.{
  BaseTaskGenerator, sleep, sleep_seconds, time_sleep, total_of, total_of-close,
  signal_handler_terminate, interrupt,
}

-- The signal comes in none of the seconds from i on to e, which is not counted.
abbrev pub IsQuiet : (ℕ → Bool) → ℕ → ℕ → Type 0
IsQuiet signals i e = (k : ℕ) → i ≤ k → k < e → signals k ≡ false

abbrev pub slept_for : ℕ → BaseTaskGenerator → BaseTaskGenerator
slept_for time g = record g { slept = g.slept + time }

-- The generator that was told to terminate in its sleep
abbrev pub ended_after : ℕ → BaseTaskGenerator → BaseTaskGenerator
ended_after time g = record g { run_flag = false; do_sleep = false; slept = g.slept + time }

module _ (signals : ℕ → Bool) where
  second-quiet :
      (i n : ℕ) (g : BaseTaskGenerator)
      → g.do_sleep ≡ true
      → signals i ≡ false
      → sleep_seconds signals i (suc n) g ≡ sleep_seconds signals (suc i) n (slept_for 1000 g)
  unfolding sleep_seconds time_sleep
  second-quiet i n g on quiet = rw (on, quiet) refl

  second-signalled :
      (i n : ℕ) (g : BaseTaskGenerator)
      → g.do_sleep ≡ true
      → signals i ≡ true
      → sleep_seconds signals i (suc n) g ≡ sleep_seconds signals (suc i) n (ended_after 1000 g)
  unfolding sleep_seconds time_sleep signal_handler_terminate interrupt
  second-signalled i n g on signalled = rw (on, signalled) refl

  seconds-off :
      (i n : ℕ) (g : BaseTaskGenerator) → g.do_sleep ≡ false → sleep_seconds signals i n g ≡ g
  unfolding sleep_seconds
  seconds-off i zero g off = refl
  seconds-off i (suc n) g off = rw off refl

  seconds-quiet :
      (n i e : ℕ) (g : BaseTaskGenerator)
      → g.do_sleep ≡ true
      → i + n ≡ e
      → IsQuiet signals i e
      → sleep_seconds signals i n g ≡ slept_for (1000 * n) g
  seconds-quiet zero i e g on sum quiet =
      unfold sleep_seconds in ap (λ t. record g { slept = t }) (omega arith)
  seconds-quiet (suc n) i e g on sum quiet =
      second-quiet i n g on (quiet i (omega arith) (omega arith))
      ∙ seconds-quiet n (suc i) e (slept_for 1000 g) on (omega arith)
          (λ k low high. quiet k (omega arith) high)
      ∙ ap (λ t. record g { slept = t }) (omega arith)

  seconds-signalled :
      (j n i e : ℕ) (g : BaseTaskGenerator)
      → g.do_sleep ≡ true
      → j < n
      → i + j ≡ e
      → IsQuiet signals i e
      → signals e ≡ true
      → sleep_seconds signals i n g ≡ ended_after (1000 * suc j) g
  seconds-signalled j zero i e g on few sum quiet signalled = absurd (omega (arith, few))
  seconds-signalled zero (suc n) i e g on few sum quiet signalled =
      let now : i ≡ e = omega (arith, sum) in
      second-signalled i n g on (ap signals now ∙ signalled)
      ∙ seconds-off (suc i) n (ended_after 1000 g) refl
  seconds-signalled (suc j) (suc n) i e g on few sum quiet signalled =
      second-quiet i n g on (quiet i (omega arith) (omega arith))
      ∙ seconds-signalled j n (suc i) e (slept_for 1000 g) on (omega arith) (omega arith)
          (λ k low high. quiet k (omega arith) high) signalled
      ∙ ap (λ t. record g { run_flag = false; do_sleep = false; slept = t }) (omega arith)

-- A sleep of more than a second in which no signal comes takes a number of whole seconds that is half a
-- second from the asked time at most.
pub sleep-quiet :
    (signals : ℕ → Bool) (time : ℕ) (g : BaseTaskGenerator)
    → leb time 1000 ≡ false
    → IsQuiet signals 0 (total_of time)
    → (n : ℕ) × (sleep time signals g ≡ slept_for (1000 * n) (record g { do_sleep = true }))
      × (1000 * n ≤ time + 500)
      × (time ≤ 1000 * n + 500)
unfolding sleep
sleep-quiet signals time g long quiet =
    let (most, least) = total_of-close time in
    (
      total_of time,
      rw long (
          seconds-quiet signals (total_of time) 0 (total_of time) (record g { do_sleep = true })
            refl (omega arith) quiet),
      most,
      least,
    )

-- When the signal first comes in the second j of a sleep of more than a second, before its end, the
-- generator sleeps to the end of this second, and its run flag is off.
pub sleep-signalled :
    (signals : ℕ → Bool) (time j : ℕ) (g : BaseTaskGenerator)
    → leb time 1000 ≡ false
    → IsQuiet signals 0 j
    → signals j ≡ true
    → j < total_of time
    → sleep time signals g ≡ ended_after (1000 * suc j) g
unfolding sleep
sleep-signalled signals time j g long quiet signalled within = rw long (
    seconds-signalled signals j (total_of time) 0 j (record g { do_sleep = true }) refl within
      (omega arith) quiet signalled)
