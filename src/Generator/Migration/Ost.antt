-- ===== src/Generator/Migration/Ost.antt =====
-- task/generator/lustre_ost_migration_task_generator.py: the states of the OSTs, their fill levels
-- and the caches of files per source OST.
use cyclone_distributed_task.Prelude.{
  ℕ, suc, Bool, true, false, ◌||◌, none, some, List, [], ◌∷◌, ℤ, pos, int_ltb, is_nil, int_eq,
  if◌then◌else◌,
}
use cyclone_distributed_task.Py.Result.{Result, ok, err, runtime_error, key_error}
use cyclone_distributed_task.Py.Exec.{Exec, pure, lift, gets, modify, ◌>>=◌, ◌>>◌}
use cyclone_distributed_task.Py.Dict.{Dict, get, put, remove, keys, contains}
use cyclone_distributed_task.Generator.Migration.State.{
  OstState, ready, locked, blocked, pending_lock, LustreOstMigrateItem, Settings, State,
}

abbrev pub Handler : Type 0 → Type 0
Handler = Exec State

-- The operators that the callers pass
pub data Operator : Type 0 where
  gt lt : Operator

abbrev apply : Operator → ℤ → ℤ → Bool
apply gt a b = int_ltb b a
apply lt a b = int_ltb a b

abbrev threshold : Settings → Operator → ℤ
threshold c gt = c.ost_fill_level_threshold_source
threshold c lt = c.ost_fill_level_threshold_target

-- The assignments of `_update_ost_state_dict` where the fill level is past the threshold
unfoldable pub unlock : ℤ → Dict ℤ OstState → Dict ℤ OstState
unlock ost d = elim (get ost d) [
  | none ↦ put ost ready d
  | some ready ↦ d
  | some locked ↦ put ost ready d
  | some blocked ↦ d
  | some pending_lock ↦ d
]

-- and where it is not.
unfoldable pub lock : ℤ → Dict ℤ OstState → Dict ℤ OstState
lock ost d = elim (get ost d) [
  | none ↦ put ost locked d
  | some ready ↦ put ost locked d
  | some locked ↦ d
  | some blocked ↦ put ost pending_lock d
  | some pending_lock ↦ d
]

-- `operator_func(ost_fill_level, ost_fill_level_threshold)`
abbrev pub past : Settings → Operator → ℤ → Bool
past c op level = apply op level (threshold c op)

-- `_update_ost_state_dict` with an operator
unfoldable pub update_ost_state_dict :
    Settings → Dict ℤ ℤ → Operator → ℤ → Dict ℤ OstState → Result (Dict ℤ OstState)
update_ost_state_dict c levels op ost d = elim (get ost levels) [
  | none ↦ err runtime_error
  | some level ↦ ok (if past c op level then unlock ost d else lock ost d)
]

-- `_update_ost_state_dict` with no operator
unfoldable pub release : ℤ → Dict ℤ OstState → Result (Dict ℤ OstState)
release ost d = elim (get ost d) [
  | none ↦ err key_error
  | some ready ↦ err runtime_error
  | some locked ↦ err runtime_error
  | some blocked ↦ ok (put ost ready d)
  | some pending_lock ↦ ok (put ost locked d)
]

set_source_states : Dict ℤ OstState → Handler (Unit {0})
set_source_states d = modify (λ s. record s { ost_source_state_dict = d })

set_target_states : Dict ℤ OstState → Handler (Unit {0})
set_target_states d = modify (λ s. record s { ost_target_state_dict = d })

-- `_update_ost_source_state_dict`
unfoldable pub update_ost_source_state_dict : Settings → ℤ → Handler (Unit {0})
unfolding set_source_states
update_ost_source_state_dict c ost = do
  s ← gets (λ s. s)
  d ← lift (update_ost_state_dict c s.ost_fill_level_dict gt ost s.ost_source_state_dict)
  set_source_states d

-- `_update_ost_target_state_dict`
unfoldable pub update_ost_target_state_dict : Settings → ℤ → Handler (Unit {0})
unfolding set_target_states
update_ost_target_state_dict c ost = do
  s ← gets (λ s. s)
  d ← lift (update_ost_state_dict c s.ost_fill_level_dict lt ost s.ost_target_state_dict)
  set_target_states d

unfoldable pub release_source : ℤ → Handler (Unit {0})
unfolding set_source_states
release_source ost = do
  d ← gets (λ s. s.ost_source_state_dict)
  released ← lift (release ost d)
  set_source_states released

unfoldable pub release_target : ℤ → Handler (Unit {0})
unfolding set_target_states
release_target ost = do
  d ← gets (λ s. s.ost_target_state_dict)
  released ← lift (release ost d)
  set_target_states released

-- `for x in xs: body(x)`
unfoldable pub for_each : {A : Type 0} → (A → Handler (Unit {0})) → List A → Handler (Unit {0})
for_each body [] = pure tt
for_each body (x ∷ xs) = do body x; for_each body xs

-- The levels of a call of `random.randint` for each index, in local mode
numbered : ℕ → List ℤ → Dict ℤ ℤ
numbered i [] = []
numbered i (level ∷ levels) = (pos i, level) ∷ numbered (suc i) levels

-- What `_update_ost_fill_level_dict` reads: the numbers that `random.randint(40, 60)` gave for the
-- `num_osts` indices, and in the other mode what `retrieve_ost_disk_usage` returned or raised.
pub record FillLevels : Type 0 where
  pub random_levels : List ℤ
  pub disk_usage : Result (Dict ℤ ℤ)

unfoldable pub update_ost_fill_level_dict : Settings → FillLevels → Handler (Unit {0})
unfolding numbered
update_ost_fill_level_dict c f = do
  levels ← lift (if c.local_mode then ok (numbered 0 f.random_levels) else f.disk_usage)
  modify (λ s. record s { ost_fill_level_dict = levels })

-- `_init_ost_target_state_dict`
unfoldable pub init_ost_target_state_dict : Settings → Handler (Unit {0})
init_ost_target_state_dict c = for_each (update_ost_target_state_dict c) c.ost_target_list

-- The update of the fill levels in the loop of `run`
unfoldable pub update_levels : Settings → FillLevels → Handler (Unit {0})
update_levels c f = do
  update_ost_fill_level_dict c f
  sources ← gets (λ s. keys s.ost_source_state_dict)
  for_each (update_ost_source_state_dict c) sources
  targets ← gets (λ s. keys s.ost_target_state_dict)
  for_each (update_ost_target_state_dict c) targets

unfoldable pub set_source_keys : Handler (Unit {0})
set_source_keys = modify (λ s. record s { source_ost_key_list = keys s.ost_source_state_dict })

unfoldable pub allocate_one : Settings → ℤ × List LustreOstMigrateItem → Handler (Unit {0})
allocate_one c (ost, cache) = do
  d ← gets (λ s. s.ost_source_state_dict)
  if is_nil cache || contains ost d then pure tt else update_ost_source_state_dict c ost

-- `_allocate_ost_caches`
unfoldable pub allocate_ost_caches : Settings → Handler (Unit {0})
unfolding allocate_one set_source_keys
allocate_ost_caches c = do
  caches ← gets (λ s. s.ost_cache_dict)
  for_each (allocate_one c) caches
  set_source_keys

abbrev is_free : OstState → Bool
is_free ready = true
is_free locked = true
is_free blocked = false
is_free pending_lock = false

abbrev pub keep_if_free : ℤ → OstState → Result (List ℤ) → Result (List ℤ)
keep_if_free ost state (err e) = err e
keep_if_free ost state (ok ids) = ok (if is_free state then ost ∷ ids else ids)

-- `empty_ost_cache_ids`
unfoldable pub empty_ost_cache_ids :
    Dict ℤ (List LustreOstMigrateItem) → Dict ℤ OstState → Result (List ℤ)
empty_ost_cache_ids [] d = ok []
empty_ost_cache_ids ((ost, i ∷ cache) ∷ caches) d = empty_ost_cache_ids caches d
empty_ost_cache_ids ((ost, []) ∷ caches) d = elim (get ost d) [
  | none ↦ err key_error
  | some state ↦ keep_if_free ost state (empty_ost_cache_ids caches d)
]

unfoldable pub delete_cache : ℤ → Handler (Unit {0})
delete_cache ost = modify (λ s. record s {
  ost_cache_dict = remove ost s.ost_cache_dict;
  ost_source_state_dict = remove ost s.ost_source_state_dict;
})

-- `_deallocate_empty_ost_caches`
unfoldable pub deallocate_empty_ost_caches : Handler (Unit {0})
unfolding set_source_keys
deallocate_empty_ost_caches = do
  s ← gets (λ s. s)
  ids ← lift (empty_ost_cache_ids s.ost_cache_dict s.ost_source_state_dict)
  for_each delete_cache ids
  set_source_keys
