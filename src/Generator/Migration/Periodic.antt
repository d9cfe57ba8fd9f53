-- ===== src/Generator/Migration/Periodic.antt =====
-- The third part of a round of task/generator/lustre_ost_migration_task_generator.py: the updates of
-- the fill levels, the loading of files and the deletion of empty caches.
use cyclone_distributed_task.Prelude.{
  ◌≡◌, refl, List, [], ◌∷◌, ℤ, int_eq, if◌then◌else◌, ◌∙◌, All, Option, none, some, is_nil, ◌||◌,
}
use cyclone_distributed_task.Py.Result.{Result, Result, ok, err, key_error}
use cyclone_distributed_task.Py.Exec.{lift, and_then, lift, pure, gets, modify, ◌>>=◌, ◌>>◌}
use cyclone_distributed_task.Py.Dict.{Dict, get, keys, contains}
use cyclone_distributed_task.Generator.Migration.State.{
  OstState, Settings, State, LustreOstMigrateItem, ready, locked, blocked, pending_lock,
}
use cyclone_distributed_task.Generator.Migration.Ost.{
  gt, lt, update_ost_state_dict, update_ost_source_state_dict, update_ost_target_state_dict,
  for_each, FillLevels, update_ost_fill_level_dict, update_levels, allocate_one,
  allocate_ost_caches, deallocate_empty_ost_caches, delete_cache, empty_ost_cache_ids,
  set_source_keys, keep_if_free,
}
use cyclone_distributed_task.Generator.Migration.Booking.{
  taken, IsKept, update-IsKept, weight, remove-taken, taken-get,
}
use cyclone_distributed_task.Generator.Migration.Dispatch.{periodic, Round}
use cyclone_distributed_task.Generator.Migration.Files.{
  load_and_rename, load_input_file, process_input_files, InputFile, input_files,
}
use cyclone_distributed_task.Generator.Migration.Open.{Pair, IsBooked}
use cyclone_distributed_task.Generator.Migration.Steady.{
  IsSteady, Steady, IsSteady-trans, still, bind-Steady, seq-Steady, pure-Steady, gets-Steady,
  if_Steady, for_each-Steady, steady_rules,
}

source-Steady : (c : Settings) (ost : ℤ) → Steady (update_ost_source_state_dict c ost)
unfolding update_ost_source_state_dict
source-Steady c ost = record {
  steady = λ s.
      go s (update_ost_state_dict c s.ost_fill_level_dict gt ost s.ost_source_state_dict)
        (update-IsKept c s.ost_fill_level_dict gt ost s.ost_source_state_dict);
}
  where
    go :
        (s : State) (r : Result (Dict ℤ OstState))
        → IsKept s.ost_source_state_dict r
        → IsSteady s ((lift r >>= λ d. modify (λ s. record s { ost_source_state_dict = d })) s).1
    go s (ok d) h = record {
      source_kept = h;
      target_kept = λ k. refl;
      tasks_kept = refl;
      results_kept = refl;
    }
    go s (err e) h = (pure-Steady tt).steady s

pub target-Steady : (c : Settings) (ost : ℤ) → Steady (update_ost_target_state_dict c ost)
unfolding update_ost_target_state_dict
target-Steady c ost = record {
  steady = λ s.
      go s (update_ost_state_dict c s.ost_fill_level_dict lt ost s.ost_target_state_dict)
        (update-IsKept c s.ost_fill_level_dict lt ost s.ost_target_state_dict);
}
  where
    go :
        (s : State) (r : Result (Dict ℤ OstState))
        → IsKept s.ost_target_state_dict r
        → IsSteady s ((lift r >>= λ d. modify (λ s. record s { ost_target_state_dict = d })) s).1
    go s (ok d) h = record {
      source_kept = λ k. refl;
      target_kept = h;
      tasks_kept = refl;
      results_kept = refl;
    }
    go s (err e) h = (pure-Steady tt).steady s

pub fill_level-Steady : (c : Settings) (f : FillLevels) → Steady (update_ost_fill_level_dict c f)
unfolding update_ost_fill_level_dict
fill_level-Steady c f = record { steady = λ s. go s _ }
  where
    go :
        (s : State) (r : Result (Dict ℤ ℤ))
        → IsSteady s ((lift r >>= λ d. modify (λ s. record s { ost_fill_level_dict = d })) s).1
    go s (ok d) = still s _ refl refl refl refl
    go s (err e) = still s _ refl refl refl refl

update_levels-Steady : (c : Settings) (f : FillLevels) → Steady (update_levels c f)
unfolding update_levels
update_levels-Steady c f = seq-Steady (update_ost_fill_level_dict c f) _ (fill_level-Steady c f) (
    bind-Steady (gets (λ s. keys s.ost_source_state_dict)) _ (gets-Steady _) (λ sources.
      seq-Steady (for_each (update_ost_source_state_dict c) sources) _
        (for_each-Steady _ sources (source-Steady c))
        (bind-Steady (gets (λ s. keys s.ost_target_state_dict)) _ (gets-Steady _)
          (λ targets. for_each-Steady _ targets (target-Steady c)))))

allocate_one-Steady :
    (c : Settings) (entry : ℤ × List LustreOstMigrateItem) → Steady (allocate_one c entry)
unfolding allocate_one
allocate_one-Steady c (ost, cache) =
    bind-Steady (gets (λ s. s.ost_source_state_dict)) _ (gets-Steady _)
      (λ d. if_Steady (is_nil cache || contains ost d) _ _ (pure-Steady tt) (source-Steady c ost))

set_source_keys-Steady : Steady set_source_keys
unfolding set_source_keys
set_source_keys-Steady = record { steady = λ s. still s _ refl refl refl refl }

allocate-Steady : (c : Settings) → Steady (allocate_ost_caches c)
unfolding allocate_ost_caches
allocate-Steady c = search (steady_rules, allocate_one-Steady c, set_source_keys-Steady)

load-Steady : (c : Settings) (file : InputFile) → Steady (load_input_file c file)
unfolding load_input_file
load-Steady c file = record { steady = λ s. still s _ refl refl refl refl }

lift-Steady : (r : Result (Unit {0})) → Steady (lift r)
lift-Steady r = record { steady = λ s. still s _ refl refl refl refl }

load_and_rename-Steady : (c : Settings) (file : InputFile) → Steady (load_and_rename c file)
unfolding load_and_rename
load_and_rename-Steady c file =
    seq-Steady (load_input_file c file) _ (load-Steady c file) (lift-Steady file.renames)

listing-Steady : (r : Result (List InputFile)) → Steady (lift r)
listing-Steady r = record { steady = λ s. still s _ refl refl refl refl }

pub process-Steady :
    (c : Settings) (listing : Result (List InputFile)) → Steady (process_input_files c listing)
unfolding process_input_files
process-Steady c listing = bind-Steady (lift listing) _ (listing-Steady listing) (λ files.
    seq-Steady (for_each (load_and_rename c) (input_files files)) _
      (for_each-Steady _ (input_files files) (load_and_rename-Steady c))
      (if_Steady (is_nil (input_files files)) _ _ (pure-Steady tt) (allocate-Steady c)))

-- None of these OSTs is taken.
abbrev AreFree : Dict ℤ OstState → List ℤ → Type 0
AreFree d = All (λ ost. taken ost d ≡ 0)

abbrev FreeIds : Dict ℤ OstState → Result (List ℤ) → Type 0
FreeIds d (ok ids) = AreFree d ids
FreeIds d (err e) = Unit

keep_if_free-FreeIds :
    (ost : ℤ) (state : OstState) (d : Dict ℤ OstState) (r : Result (List ℤ))
    → taken ost d ≡ weight state
    → FreeIds d r
    → FreeIds d (keep_if_free ost state r)
keep_if_free-FreeIds ost ready d (ok ids) h g = (h, g)
keep_if_free-FreeIds ost locked d (ok ids) h g = (h, g)
keep_if_free-FreeIds ost blocked d (ok ids) h g = g
keep_if_free-FreeIds ost pending_lock d (ok ids) h g = g
keep_if_free-FreeIds ost state d (err e) h g = tt

empty_ids-FreeIds :
    (caches : Dict ℤ (List LustreOstMigrateItem)) (d : Dict ℤ OstState)
    → FreeIds d (empty_ost_cache_ids caches d)
unfolding empty_ost_cache_ids
empty_ids-FreeIds [] d = tt
empty_ids-FreeIds ((ost, i ∷ cache) ∷ caches) d = empty_ids-FreeIds caches d
empty_ids-FreeIds ((ost, []) ∷ caches) d = go (get ost d) refl (empty_ids-FreeIds caches d)
  where
    go :
        (o : Option OstState)
        → get ost d ≡ o
        → FreeIds d (empty_ost_cache_ids caches d)
        → FreeIds d (elim o [
          | none ↦ err key_error
          | some state ↦ keep_if_free ost state (empty_ost_cache_ids caches d)
        ])
    go none e ih = tt
    go (some state) e ih = keep_if_free-FreeIds ost state d _ (taken-get ost d e) ih

AreFree-kept :
    (d d' : Dict ℤ OstState) (ids : List ℤ)
    → ((k : ℤ) → taken k d' ≡ taken k d)
    → AreFree d ids
    → AreFree d' ids
AreFree-kept d d' [] same h = tt
AreFree-kept d d' (ost ∷ ids) same h = (same ost ∙ h.0, AreFree-kept d d' ids same h.1)

delete_all-IsSteady :
    (ids : List ℤ) (s : State)
    → AreFree s.ost_source_state_dict ids
    → IsSteady s (for_each delete_cache ids s).1
unfolding for_each delete_cache
delete_all-IsSteady [] s h = still s _ refl refl refl refl
delete_all-IsSteady (ost ∷ ids) s h =
    IsSteady-trans s after _
      (record {
        source_kept = same;
        target_kept = λ k. refl;
        tasks_kept = refl;
        results_kept = refl;
      })
      (delete_all-IsSteady ids after (AreFree-kept _ _ ids same h.1))
  where
    after : State
    after = (delete_cache ost s).1

    same : (k : ℤ) → taken k after.ost_source_state_dict ≡ taken k s.ost_source_state_dict
    same = remove-taken ost s.ost_source_state_dict h.0

deallocate-Steady : Steady deallocate_empty_ost_caches
unfolding deallocate_empty_ost_caches
deallocate-Steady = record {
  steady = λ s. go s _ (empty_ids-FreeIds s.ost_cache_dict s.ost_source_state_dict);
}
  where
    go :
        (s : State) (r : Result (List ℤ))
        → FreeIds s.ost_source_state_dict r
        → IsSteady s ((lift r >>= λ ids. for_each delete_cache ids >> set_source_keys) s).1
    go s (err e) h = still s _ refl refl refl refl
    go s (ok ids) h = delete_then (for_each delete_cache ids s) (delete_all-IsSteady ids s h)
      where
        delete_then :
            (r : Result (Unit {0}) × State)
            → IsSteady s r.1
            → IsSteady s (and_then r.0 (λ _. set_source_keys) r.1).1
        delete_then (ok a, t) k = IsSteady-trans s t _ k (set_source_keys-Steady.steady t)
        delete_then (err e, t) k = k

-- Whatever the third part of a round returns or raises, it leaves each OST taken or free as it is,
-- and both queues: the same migrations are open behind it.
pub periodic-IsBooked :
    (c : Settings) (r : Round) (open_pairs : List Pair) (s : State)
    → IsBooked open_pairs s
    → let t = (periodic c r s).1 in
      IsBooked open_pairs t × (t.task_queue ≡ s.task_queue) × (t.result_queue ≡ s.result_queue)
unfolding periodic
periodic-IsBooked c r open_pairs s b = (
  record {
    source_taken = λ k. h.source_kept k ∙ b.source_taken k;
    target_taken = λ k. h.target_kept k ∙ b.target_taken k;
  },
  h.tasks_kept,
  h.results_kept,
)
  where
    all : Steady (periodic c r)
    all =
        seq-Steady (if r.is_update_fill_level_due then update_levels c r.fill_levels else pure tt) _
          (if_Steady r.is_update_fill_level_due _ _ (update_levels-Steady c r.fill_levels)
            (pure-Steady tt))
          (seq-Steady (if r.is_reload_files_due then process_input_files c r.files else pure tt) _
            (if_Steady r.is_reload_files_due _ _ (process-Steady c r.files) (pure-Steady tt))
            (if_Steady r.is_print_caches_due _ _ deallocate-Steady (pure-Steady tt)))

    h : IsSteady s (periodic c r s).1
    h = all.steady s
