-- ===== src/Generator/Migration/Booking.antt =====
-- Which OSTs are taken by the migrations under way, as the states of
-- task/generator/lustre_ost_migration_task_generator.py say it and as the list of the open
-- migrations says it.
use cyclone_distributed_task.Prelude.{
  ℕ, suc, ◌+◌, ◌≡◌, true, Option, none, some, List, [], ◌∷◌, ◌++◌, ℤ, int_eq, arith, ◌==◌,
  Bool-cases, eq_iff, if◌then◌else◌, inl, refl, inr, ap, sym, ◌≤◌, ◌∙◌,
}
use cyclone_distributed_task.Py.Result.{Result, ok, err}
use cyclone_distributed_task.Py.Dict.{Dict, get, put, remove, get-put, get-remove}
use cyclone_distributed_task.Generator.Migration.State.{
  OstState, ready, locked, blocked, pending_lock, Settings,
}
use cyclone_distributed_task.Generator.Migration.Ost.{
  unlock, lock, update_ost_state_dict, release, Operator, past,
}

abbrev pub weight : OstState → ℕ
weight ready = 0
weight locked = 0
weight blocked = 1
weight pending_lock = 1

abbrev pub allotted : Option OstState → ℕ
allotted none = 0
allotted (some state) = weight state

-- The number of migrations that the states allot to an OST
unfoldable pub taken : ℤ → Dict ℤ OstState → ℕ
taken ost d = allotted (get ost d)

unfoldable pub count : ℤ → List ℤ → ℕ
count ost [] = 0
count ost (x ∷ xs) = if x == ost then suc (count ost xs) else count ost xs

pub count-append : (ost : ℤ) (xs ys : List ℤ) → count ost (xs ++ ys) ≡ count ost xs + count ost ys
unfolding count
count-append ost [] ys = ground arith
count-append ost (x ∷ xs) ys = ground (arith, count-append ost xs ys)

pub taken-put :
    (ost : ℤ) (state : OstState) (d : Dict ℤ OstState) (k : ℤ)
    → taken k (put ost state d) ≡ (if ost == k then weight state else taken k d)
unfolding taken
taken-put ost state d k = elim (Bool-cases (ost == k)) [
  | inl y ↦ rw (taken, get-put ost k state d, y) refl
  | inr n ↦ rw (taken, get-put ost k state d, n) refl
]

pub taken-remove :
    (ost : ℤ) (d : Dict ℤ OstState) (k : ℤ)
    → taken k (remove ost d) ≡ (if ost == k then 0 else taken k d)
unfolding taken
taken-remove ost d k = elim (Bool-cases (ost == k)) [
  | inl y ↦ rw (taken, get-remove ost k d, y) refl
  | inr n ↦ rw (taken, get-remove ost k d, n) refl
]

taken-at : (ost k : ℤ) (d : Dict ℤ OstState) → ost == k ≡ true → taken ost d ≡ taken k d
taken-at ost k d h = ap (λ x. taken x d) ((eq_iff ost k).0 h)

-- Assigning a state of the same weight changes nothing.
pub put-taken :
    (ost : ℤ) (state : OstState) (d : Dict ℤ OstState)
    → taken ost d ≡ weight state
    → (k : ℤ) → taken k (put ost state d) ≡ taken k d
put-taken ost state d h k = elim (Bool-cases (ost == k)) [
  | inl y ↦ rw (taken-put ost state d k, y) (sym h ∙ taken-at ost k d y)
  | inr n ↦ rw (taken-put ost state d k, n) refl
]

-- Deleting an OST that is not taken changes nothing.
pub remove-taken :
    (ost : ℤ) (d : Dict ℤ OstState) → taken ost d ≡ 0 → (k : ℤ) → taken k (remove ost d) ≡ taken k d
remove-taken ost d h k = elim (Bool-cases (ost == k)) [
  | inl y ↦ rw (taken-remove ost d k, y) (sym h ∙ taken-at ost k d y)
  | inr n ↦ rw (taken-remove ost d k, n) refl
]

allotted-le : (o : Option OstState) → allotted o ≤ 1
allotted-le none = omega arith
allotted-le (some ready) = omega arith
allotted-le (some locked) = omega arith
allotted-le (some blocked) = omega arith
allotted-le (some pending_lock) = omega arith

pub taken-le : (k : ℤ) (d : Dict ℤ OstState) → taken k d ≤ 1
unfolding taken
taken-le k d = allotted-le (get k d)

pub taken-get :
    (ost : ℤ) (d : Dict ℤ OstState) {o : Option OstState} → get ost d ≡ o → taken ost d ≡ allotted o
unfolding taken
taken-get ost d h = ap allotted h

-- Past the threshold or not, a new fill level leaves each OST taken or free as it is.
pub unlock-taken : (ost : ℤ) (d : Dict ℤ OstState) (k : ℤ) → taken k (unlock ost d) ≡ taken k d
unfolding unlock
unlock-taken ost d k = go (get ost d) refl
  where
    go : (o : Option OstState) → get ost d ≡ o → taken k (unlock ost d) ≡ taken k d
    go none h = rw (unlock, h) (put-taken ost ready d (taken-get ost d h) k)
    go (some ready) h = rw (unlock, h) refl
    go (some locked) h = rw (unlock, h) (put-taken ost ready d (taken-get ost d h) k)
    go (some blocked) h = rw (unlock, h) refl
    go (some pending_lock) h = rw (unlock, h) refl

pub lock-taken : (ost : ℤ) (d : Dict ℤ OstState) (k : ℤ) → taken k (lock ost d) ≡ taken k d
unfolding lock
lock-taken ost d k = go (get ost d) refl
  where
    go : (o : Option OstState) → get ost d ≡ o → taken k (lock ost d) ≡ taken k d
    go none h = rw (lock, h) (put-taken ost locked d (taken-get ost d h) k)
    go (some ready) h = rw (lock, h) (put-taken ost locked d (taken-get ost d h) k)
    go (some locked) h = rw (lock, h) refl
    go (some blocked) h = rw (lock, h) (put-taken ost pending_lock d (taken-get ost d h) k)
    go (some pending_lock) h = rw (lock, h) refl

-- The dict that a call returns takes the same OSTs.
abbrev pub IsKept : Dict ℤ OstState → Result (Dict ℤ OstState) → Type 0
IsKept d (ok after) = (k : ℤ) → taken k after ≡ taken k d
IsKept d (err e) = Unit

pub update-IsKept :
    (c : Settings) (levels : Dict ℤ ℤ) (op : Operator) (ost : ℤ) (d : Dict ℤ OstState)
    → IsKept d (update_ost_state_dict c levels op ost d)
unfolding update_ost_state_dict
update-IsKept c levels op ost d = go (get ost levels) refl
  where
    go : (o : Option ℤ) → get ost levels ≡ o → IsKept d (update_ost_state_dict c levels op ost d)
    go none e = rw (update_ost_state_dict, e) tt
    go (some level) e = elim (Bool-cases (past c op level)) [
      | inl y ↦ rw (update_ost_state_dict, e, y) (unlock-taken ost d)
      | inr n ↦ rw (update_ost_state_dict, e, n) (lock-taken ost d)
    ]

-- A taken OST is released, and no other changes.
pub release-taken :
    (ost : ℤ) (d : Dict ℤ OstState)
    → taken ost d ≡ 1
    → (d' : Dict ℤ OstState) × (release ost d ≡ ok d')
      × ((k : ℤ) → taken k d' ≡ (if ost == k then 0 else taken k d))
unfolding release
release-taken ost d h = go (get ost d) refl
  where
    go :
        (o : Option OstState)
        → get ost d ≡ o
        → (d' : Dict ℤ OstState) × (release ost d ≡ ok d')
          × ((k : ℤ) → taken k d' ≡ (if ost == k then 0 else taken k d))
    go none e = cc (taken-get ost d e, h)
    go (some ready) e = cc (taken-get ost d e, h)
    go (some locked) e = cc (taken-get ost d e, h)
    go (some blocked) e = (put ost ready d, rw (release, e) refl, taken-put ost ready d)
    go (some pending_lock) e = (put ost locked d, rw (release, e) refl, taken-put ost locked d)
