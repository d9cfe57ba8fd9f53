-- ===== src/Task/Check.antt =====
-- task/lustre_file_creation_check_task.py and util/type_conv_with_none.py: the attributes and the check of one MDT.
-- The answers of `LfsUtils` and of the file system are inputs, and so are the indices that a `RangeSet` lists.
pub mod Sending
pub mod Delivery
use cyclone_distributed_task.Prelude.{
  true, false, Bool, none, some, Option, List, [], ◌∷◌, ◌++◌, Text, ℤ, pos, negsuc, ◌==◌, int_eq,
  is_nil, if◌then◌else◌,
}
use cyclone_distributed_task.Py.Int
use cyclone_distributed_task.Py.Result.{Result, ok, err, type_error, ◌>>=◌, ◌>>◌}
use cyclone_distributed_task.Prometheus.CreationCheck.{
  CheckState, ok_state, failed, error_state, ignored, CheckResult, new_result, to_string,
}

-- `NOT_INIT_INT`
abbrev pub not_init_int : ℤ
not_init_int = negsuc 999998

-- `conv_int`
unfoldable pub conv_int : Text → Result ℤ
conv_int [] = ok not_init_int
conv_int (c ∷ s) = Int.parse (c ∷ s)

-- `conv_int_none`
unfoldable pub conv_int_none : Text → Result (Option ℤ)
conv_int_none [] = ok none
conv_int_none (c ∷ s) = do z ← Int.parse (c ∷ s); ok (some z)

pub record CheckTask : Type 0 where
  pub ost_idx : ℤ
  pub lfs_target : Text
  pub target_base_dir : Text
  pub target_mdt_sub_dir : Text
  pub mdt_index_rangeset : Text
  pub pushgateway_client_name : Text
  pub pushgateway_client_port : ℤ
  pub pushgateway_client_timeout : ℤ
  pub mdt_index_list : List ℤ

-- `int` of each text
unfoldable pub parse_all : List Text → Result (List ℤ)
parse_all [] = ok []
parse_all (s ∷ ss) = do z ← Int.parse s; zs ← parse_all ss; ok (z ∷ zs)

-- `__init__`; the first argument gives the texts that `RangeSet(…).striter()` lists.
unfoldable pub check_init : (Text → Result (List Text)) → List Text → Result CheckTask
unfolding conv_int parse_all
check_init striter (ost ∷ target ∷ base_dir ∷ sub_dir ∷ rangeset ∷ name ∷ port ∷ timeout ∷ []) = do
  ost_idx ← conv_int ost
  client_port ← Int.parse port
  client_timeout ← Int.parse timeout
  texts ← striter rangeset
  indices ← parse_all texts
  ok (record {
    ost_idx = ost_idx;
    lfs_target = target;
    target_base_dir = base_dir;
    target_mdt_sub_dir = sub_dir;
    mdt_index_rangeset = rangeset;
    pushgateway_client_name = name;
    pushgateway_client_port = client_port;
    pushgateway_client_timeout = client_timeout;
    mdt_index_list = indices;
  })
check_init striter _ = err type_error

-- The answers for the file of one MDT: whether it exists before and after the check, the calls, and the index of
-- the OST that holds it.
pub record MdtAnswers : Type 0 where
  pub exists_before : Result Bool
  pub removes : Result (Unit {0})
  pub stripes : Result (Unit {0})
  pub stripe_index : Result ℤ
  pub exists_at_exit : Bool
  pub removes_at_exit : Result (Unit {0})

-- The block under `with AutoRemoveFile(file_path)`
unfoldable pub check_file : MdtAnswers → CheckTask → ℤ → Result CheckResult
unfolding new_result
check_file a t mdt_idx = do
  exists ← a.exists_before
  (if exists then a.removes else ok tt)
  a.stripes
  current_ost_idx ← a.stripe_index
  new_result t.lfs_target (
      if t.ost_idx == current_ost_idx then ok_state mdt_idx t.ost_idx else failed mdt_idx t.ost_idx)

-- The exit of `AutoRemoveFile`
unfoldable pub at_exit : MdtAnswers → Result CheckResult → Result CheckResult
at_exit a r = do (if a.exists_at_exit then a.removes_at_exit else ok tt); r

-- `except Exception: check_result = LustreFileCreationCheckResult(self.lfs_target, state)`
unfoldable pub or_error_result : CheckTask → Result CheckResult → Result CheckResult
or_error_result t (ok r) = ok r
or_error_result t (err e) = new_result t.lfs_target error_state

-- The result for one MDT
unfoldable pub check_mdt : MdtAnswers → CheckTask → ℤ → Result CheckResult
unfolding check_file at_exit or_error_result
check_mdt a t mdt_idx = or_error_result t (at_exit a (check_file a t mdt_idx))
