-- ===== src/Generator/Migration/State.antt =====
-- task/generator/lustre_ost_migration_task_generator.py: the settings, their validation and the
-- variables of the generator. `LfsUtils` belongs to a library outside of the repository, which
-- gives the bounds of an OST index.
use cyclone_distributed_task.Prelude.{
  ℕ, Bool, not, ◌&&◌, List, [], ◌∷◌, Text, ℤ, pos, int_ltb, int_leb, ltb, length, if◌then◌else◌,
  true, false,
}
use cyclone_distributed_task.Py.Result.{
  Result, ok, config_value_error, config_value_out_of_range_error, index_error, ◌>>=◌, ◌>>◌,
  raise_if, item_at, err,
}
use cyclone_distributed_task.Py.Dict.{Dict}
use cyclone_distributed_task.Ctrl.SharedQueue.{SharedQueue}
use cyclone_distributed_task.Task.Object.{Task}

pub data OstState : Type 0 where
  ready locked blocked pending_lock : OstState

abbrev pub is_ready : OstState → Bool
is_ready ready = true
is_ready _ = false

pub record LustreOstMigrateItem : Type 0 where
  pub ost : ℤ
  pub filename : Text

pub record Settings : Type 0 where
  pub local_mode : Bool
  pub num_osts : ℤ
  pub threshold_update_fill_level : ℤ
  pub threshold_reload_files : ℤ
  pub threshold_print_caches : ℤ
  pub ost_fill_level_threshold_source : ℤ
  pub ost_fill_level_threshold_target : ℤ
  pub ost_target_list : List ℤ
  pub lfs_path : Text

-- The variables of the object and of the loop in `run`.
pub record State : Type 0 where
  pub ost_cache_dict : Dict ℤ (List LustreOstMigrateItem)
  pub ost_source_state_dict : Dict ℤ OstState
  pub ost_target_state_dict : Dict ℤ OstState
  pub ost_fill_level_dict : Dict ℤ ℤ
  pub source_ost_key_list : List ℤ
  pub next_source_ost_key_index : ℕ
  pub next_target_ost_key_index : ℕ
  pub task_queue : SharedQueue Task
  pub result_queue : SharedQueue Text

-- `low <= v <= high`
abbrev pub is_between : ℤ → ℤ → ℤ → Bool
is_between low v high = int_leb low v && int_leb v high

-- `if not low <= v <= high: raise ConfigValueOutOfRangeError`
abbrev pub check_range : ℤ → ℤ → ℤ → Result (Unit {0})
check_range low v high = raise_if (not (is_between low v high)) config_value_out_of_range_error

-- `xs[-1]`
unfoldable pub last_item : List ℤ → Result ℤ
last_item [] = err index_error
last_item (x ∷ []) = ok x
last_item (x ∷ y ∷ xs) = last_item (y ∷ xs)

-- The answers of the file system: whether the two paths are directories.
pub record Directories : Type 0 where
  pub lfs_path_is_dir : Bool
  pub input_dir_is_dir : Bool

module _ (min_ost_index max_ost_index : ℤ) where
  unfoldable pub validate_mode : Settings → Directories → Result (Unit {0})
  validate_mode c d =
      if c.local_mode
      then raise_if (not (int_ltb min_ost_index c.num_osts && int_leb c.num_osts max_ost_index))
          config_value_out_of_range_error
      else raise_if (not d.lfs_path_is_dir) config_value_error

  unfoldable pub validate_targets : List ℤ → Result (Unit {0})
  unfolding last_item
  validate_targets targets = do
    first ← item_at targets 0
    check_range min_ost_index first max_ost_index
    last ← last_item targets
    raise_if (ltb 1 (length targets) && not (is_between min_ost_index last max_ost_index))
        config_value_out_of_range_error

  unfoldable pub validate_config : Settings → Directories → Result (Unit {0})
  unfolding validate_mode validate_targets
  validate_config c d = do
    validate_mode c d
    check_range (pos 1) c.threshold_update_fill_level (pos 3600)
    check_range (pos 1) c.threshold_reload_files (pos 3600)
    check_range (pos 1) c.threshold_print_caches (pos 3600)
    raise_if (not d.input_dir_is_dir) config_value_error
    check_range (pos 0) c.ost_fill_level_threshold_source (pos 90)
    check_range (pos 0) c.ost_fill_level_threshold_target (pos 90)
    validate_targets c.ost_target_list
