-- ===== src/Master/Ending.antt =====
-- How the master ends the process of its task generator (the last part of `main` of cyclone-master.py).
use cyclone_distributed_task.Prelude.{
  ◌≡◌, Bool-cases, leb, inl, inr, ◌⊎◌, refl, true, false, List, [], ◌∷◌, ◌++◌, ◌∙◌, ap, ℕ, zero,
  suc, ◌+◌, ◌≤◌, ◌<◌, arith, append-nil, append_assoc, sym,
}
use cyclone_distributed_task.Py.Number.{replicate}
use cyclone_distributed_task.Py.Result.{ok}
use cyclone_distributed_task.Py.Exec.{Exec, ◌>>◌}
use cyclone_distributed_task.Master.Process.{
  Action, kill_sigusr1, sleep_second, terminate, join, GeneratorProcess, Ending, is_alive, act,
  wait_up_to, end_by_force, end_generator, not_ended,
}

-- A process that has ended stays so.
abbrev pub StaysEnded : GeneratorProcess → Type 0
StaysEnded p = (m n : ℕ) → m ≤ n → p.alive m ≡ false → p.alive n ≡ false

-- The process is alive at the calls from this one on up to that one, which is not counted.
abbrev pub IsAliveFrom : ℕ → ℕ → GeneratorProcess → Type 0
IsAliveFrom m n p = (k : ℕ) → m ≤ k → k < n → p.alive k ≡ true

module _ (p : GeneratorProcess) where
  wait_then_force : ℕ → Exec Ending (Unit {0})
  wait_then_force n = do wait_up_to p n; end_by_force p

  force-ended :
      (s : Ending)
      → p.alive s.checks ≡ false
      → end_by_force p s ≡ (ok tt, record s { checks = suc s.checks })
  unfolding end_by_force is_alive
  force-ended s e = simp e

  wait-ended :
      (m : ℕ) (s : Ending)
      → StaysEnded p
      → p.alive s.checks ≡ false
      → (wait_then_force m s).1.actions ≡ s.actions
  unfolding wait_then_force wait_up_to is_alive
  wait-ended zero s stays down = ap (λ x. x.1.actions) (force-ended s down)
  wait-ended (suc m) s stays down =
      let later = stays s.checks (suc s.checks) (omega arith) down in
      simp (down, force-ended (record s { checks = suc s.checks }) later)

  -- A wait in whose first second the process is alive
  wait-sleeps :
      (m : ℕ) (s : Ending)
      → p.alive s.checks ≡ true
      → wait_then_force (suc m) s
        ≡ wait_then_force m
            (record { checks = suc s.checks; actions = s.actions ++ sleep_second ∷ [] })
  unfolding wait_then_force wait_up_to is_alive act
  wait-sleeps m s up = rw up refl

  wait-ends :
      (n m e : ℕ) (s : Ending)
      → StaysEnded p
      → n ≤ m
      → s.checks + n ≡ e
      → IsAliveFrom s.checks e p
      → p.alive e ≡ false
      → (wait_then_force m s).1.actions ≡ s.actions ++ replicate n sleep_second
  wait-ends zero m e s stays few sum up down =
      let sum' : s.checks ≡ e = omega (arith, sum) in
      wait-ended m s stays (ap p.alive sum' ∙ down) ∙ sym (append-nil s.actions)
  wait-ends (suc n) zero e s stays few sum up down = absurd (omega (arith, few))
  wait-ends (suc n) (suc m) e s stays few sum up down =
      ap (λ x. x.1.actions) (wait-sleeps m s (up s.checks (omega arith) (omega arith)))
      ∙ wait-ends n m e (record { checks = suc s.checks; actions = s.actions ++ sleep_second ∷ [] })
          stays (omega arith) (omega arith) (λ k low high. up k (omega arith) high) down
      ∙ append_assoc s.actions (sleep_second ∷ []) (replicate n sleep_second)

  wait-forces :
      (m : ℕ) (s : Ending)
      → IsAliveFrom s.checks (suc (s.checks + m)) p
      → (wait_then_force m s).1.actions
        ≡ s.actions ++ (replicate m sleep_second ++ terminate ∷ join ∷ [])
  unfolding wait_then_force wait_up_to is_alive act end_by_force
  wait-forces zero s up =
      rw (up s.checks (omega arith) (omega arith))
        (append_assoc s.actions (terminate ∷ []) (join ∷ []))
  wait-forces (suc m) s up =
      ap (λ x. x.1.actions) (wait-sleeps m s (up s.checks (omega arith) (omega arith)))
      ∙ wait-forces m (record { checks = suc s.checks; actions = s.actions ++ sleep_second ∷ [] })
          (λ k low high. up k (omega arith) (omega arith))
      ∙ append_assoc s.actions (sleep_second ∷ []) _

  end-waits :
      p.alive 0 ≡ true
      → p.kills ≡ ok tt
      → end_generator p not_ended
        ≡ wait_then_force 10 (record { checks = 1; actions = kill_sigusr1 ∷ [] })
  unfolding end_generator is_alive act wait_then_force
  end-waits up killed = simp (up, killed)

at_or_above : (c k : ℕ) → c ≤ k → (c ≡ k) ⊎ (suc c ≤ k)
at_or_above c k low = elim (Bool-cases (leb (suc c) k)) [
  | inl above ↦ inr (ground arith)
  | inr same ↦ inl (ground arith)
]

IsAlive-cons :
    (c e : ℕ) (p : GeneratorProcess)
    → p.alive c ≡ true
    → IsAliveFrom (suc c) e p
    → IsAliveFrom c e p
IsAlive-cons c e p up later k low high = elim (at_or_above c k low) [
  | inl same ↦ ap p.alive (sym same) ∙ up
  | inr above ↦ later k above high
]

-- The first of the calls at which the process has ended, or it is alive at all of them
abbrev Finds : ℕ → ℕ → GeneratorProcess → Type 0
Finds m c p =
    ((n : ℕ) × (n ≤ m) × IsAliveFrom c (c + n) p × (p.alive (c + n) ≡ false))
    ⊎ IsAliveFrom c (suc (c + m)) p

-- The two ways to end the process
abbrev pub Ends : GeneratorProcess → List Action → Type 0
Ends p actions =
    ((n : ℕ) × (n ≤ 10)
      × IsAliveFrom 1 (suc n) p
      × (p.alive (suc n) ≡ false)
      × (actions ≡ kill_sigusr1 ∷ replicate n sleep_second))
    ⊎ (IsAliveFrom 1 12 p
        × (actions ≡ kill_sigusr1 ∷ (replicate 10 sleep_second ++ terminate ∷ join ∷ [])))

find : (m c : ℕ) (p : GeneratorProcess) → Finds m c p
find zero c p = elim (Bool-cases (p.alive c)) [
  | inl up ↦ inr (IsAlive-cons c (suc (c + 0)) p up (λ k low high. absurd (omega arith)))
  | inr down ↦
      inl (0, omega arith, (λ k low high. absurd (omega arith)), ap p.alive (omega arith) ∙ down)
]
find (suc m) c p = elim (Bool-cases (p.alive c)) [
  | inl up ↦ elim (find m (suc c) p) [
    | inl found ↦
        let (n, few, living, down) = found in
        inl (
          suc n,
          omega arith,
          IsAlive-cons c (c + suc n) p up (λ k low high. living k low (omega arith)),
          ap p.alive (omega arith) ∙ down,
        )
    | inr living ↦
        inr (IsAlive-cons c (suc (c + suc m)) p up (λ k low high. living k low (omega arith)))
  ]
  | inr down ↦
      inl (0, omega arith, (λ k low high. absurd (omega arith)), ap p.alive (omega arith) ∙ down)
]

-- A living process that can be signalled, and that stays ended once it has ended, is sent SIGUSR1
-- once. Either it has ended at one of the checks that follow, at most ten seconds later, and the master sleeps the seconds
-- before this check and uses no force; or it is alive after ten seconds as well, and the master, which has slept ten
-- seconds, terminates it and joins it.
pub end_generator-Ends :
    (p : GeneratorProcess)
    → p.alive 0 ≡ true
    → p.kills ≡ ok tt
    → StaysEnded p
    → Ends p (end_generator p not_ended).1.actions
end_generator-Ends p up killed stays =
    let first = ap (λ x. x.1.actions) (end-waits p up killed) in
    let signalled : Ending = record { checks = 1; actions = kill_sigusr1 ∷ [] } in
    elim (find 10 1 p) [
      | inl found ↦
          let (n, few, living, down) = found in
          inl (
            n,
            few,
            (λ k low high. living k low (omega arith)),
            ap p.alive (omega arith) ∙ down,
            first ∙ wait-ends p n 10 (1 + n) signalled stays few refl living down,
          )
      | inr living ↦ inr (living, first ∙ wait-forces p 10 signalled living)
    ]
