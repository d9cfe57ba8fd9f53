-- ===== src/Generator/Migration/Collected.antt =====
-- What the second part of a round of task/generator/lustre_ost_migration_task_generator.py does: the
-- ids of finished tasks free their OSTs.
use cyclone_distributed_task.Prelude.{
  ℕ, suc, ◌≡◌, refl, sym, true, List, [], ◌∷◌, ◌++◌, map, length, ℤ, int_eq, ◌==◌, arith,
  Bool-cases, inl, inr, Text, ap, ◌∙◌, eq_self,
}
use cyclone_distributed_task.Py.Result.{ok}
use cyclone_distributed_task.Py.Dict.{Dict}
use cyclone_distributed_task.Ctrl.SharedQueue.{pop}
use cyclone_distributed_task.Generator.Migration.State.{OstState, State}
use cyclone_distributed_task.Generator.Migration.Ost.{release, release_source, release_target}
use cyclone_distributed_task.Generator.Migration.Tid.{tid_of, parse_tid-tid_of}
use cyclone_distributed_task.Generator.Migration.Booking.{taken, taken-le, count, release-taken}
use cyclone_distributed_task.Generator.Migration.Open.{
  Pair, sources, targets, tid_of_pair, IsBooked,
}
use cyclone_distributed_task.Generator.Migration.Dispatch.{finish_tid, collect}

-- The dict takes what the list counts.
abbrev Counts : List ℤ → Dict ℤ OstState → Type 0
Counts osts d = (k : ℤ) → taken k d ≡ count k osts

release-Counts :
    (ost : ℤ) (osts : List ℤ) (d : Dict ℤ OstState)
    → Counts (ost ∷ osts) d
    → (after : Dict ℤ OstState) × (release ost d ≡ ok after) × Counts osts after
unfolding count
release-Counts ost osts d h =
    let (after, e, g) = release-taken ost d is_taken in
    (
      after,
      e,
      λ k. elim (Bool-cases (ost == k)) [
        | inl y ↦ g k ∙ rw y (omega (arith, at_k k y, taken-le k d))
        | inr n ↦ g k ∙ rw n (h k ∙ rw n refl)
      ],
    )
  where
    at_k : (k : ℤ) → ost == k ≡ true → taken k d ≡ suc (count k osts)
    at_k k y = h k ∙ rw y refl

    is_taken : taken ost d ≡ 1
    is_taken = omega (arith, at_k ost (eq_self ost), taken-le ost d)

finish_tid-IsBooked :
    (source target : ℤ) (rest : List Pair) (s : State)
    → IsBooked ((source, target) ∷ rest) s
    → (t : State) × (finish_tid (tid_of source target) s ≡ (ok tt, t))
      × IsBooked rest t
      × (t.result_queue ≡ s.result_queue)
      × (t.task_queue ≡ s.task_queue)
unfolding finish_tid release_source release_target
finish_tid-IsBooked source target rest s b =
    let (d, e, g) = release-Counts source (sources rest) s.ost_source_state_dict b.source_taken in
    let (d', e', g') =
      release-Counts target (targets rest) s.ost_target_state_dict b.target_taken in
    (
      record s { ost_source_state_dict = d; ost_target_state_dict = d' },
      simp (parse_tid-tid_of source target, e, e'),
      record { source_taken = g; target_taken = g' },
      refl,
      refl,
    )

collect-next :
    (fuel : ℕ) (tid : Text) (rest : List Text) (s t : State)
    → s.result_queue.items ≡ tid ∷ rest
    → finish_tid tid (record s { result_queue = record { items = rest } }) ≡ (ok tt, t)
    → collect (suc fuel) s ≡ collect fuel t
unfolding collect pop
collect-next fuel tid rest s t h e = rw (h, e) refl

-- The ids of open migrations in the result queue are all taken from it, no exception is raised, and
-- their OSTs are freed, so that exactly the other migrations are open behind it.
pub collect-IsBooked :
    (finished rest : List Pair) (s : State)
    → IsBooked (finished ++ rest) s
    → s.result_queue.items ≡ map tid_of_pair finished
    → (t : State) × (collect (length s.result_queue.items) s ≡ (ok tt, t))
      × IsBooked rest t
      × (t.result_queue.items ≡ [])
      × (t.task_queue ≡ s.task_queue)
unfolding collect
collect-IsBooked [] rest s b h = (s, rw h refl, b, h, refl)
collect-IsBooked ((source, target) ∷ finished) rest s b h =
    let popped = record s { result_queue = record { items = map tid_of_pair finished } } in
    let booked : IsBooked ((source, target) ∷ finished ++ rest) popped = record {
      source_taken = b.source_taken;
      target_taken = b.target_taken;
    } in
    let (t, e, c, r, q) = finish_tid-IsBooked source target (finished ++ rest) popped booked in
    let items = ap (λ x. x.items) r in
    let (u, e', c', r', q') = collect-IsBooked finished rest t c items in
    let size = ap length h ∙ ap (λ xs. suc (length xs)) (sym items) in
    let next = collect-next (length t.result_queue.items) _ _ s t h e in
    (u, ap (λ n. collect n s) size ∙ next ∙ e', c', r', q' ∙ q)
