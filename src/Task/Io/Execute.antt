-- ===== src/Task/Io/Execute.antt =====
-- task/lustre_io_task.py: `execute`, with util/auto_remove_file.py. The answers of `LfsUtils`, of the file system, of
-- the clock and of the socket are inputs; `file` is what stands at the path of the test file.
use cyclone_distributed_task.Prelude.{
  pos, true, false, Bool, Option, none, some, [], ◌∷◌, ◌++◌, Text, ℤ, codes,
}
use cyclone_distributed_task.Py.Int
use cyclone_distributed_task.Py.Result.{Result, ok, err, unbound_local_error}
use cyclone_distributed_task.Py.Exec.{Exec, pure, lift, modify, ◌>>=◌, ◌>>◌}
use cyclone_distributed_task.Task.Io.{Floats, IoTask, PerfResult, to_csv_list}
use cyclone_distributed_task.Task.Io.Block.{
  IoState, WriteAnswers, ReadAnswers, initialize_payload, write_file, read_file, or_default,
}

pub record Answers (fl : Floats) : Type 0 where
  pub is_ost_idx_active : Text → Option ℤ → Result Bool
  pub inactive_timestamp : Text
  pub removes : Result (Unit {0})
  pub stripes : Result (Unit {0})
  pub striped_file : Option Text
  pub write_timestamp : Text
  pub write : WriteAnswers fl
  pub read_timestamp : Text
  pub read : ReadAnswers fl
  pub removes_at_exit : Result (Unit {0})
  pub sends : Result (Unit {0})

abbrev pub Io : Type 0
Io = Exec IoState (Unit {0})

-- `str(self.ost_idx)`
unfoldable pub str_ost_idx : IoTask → Text
str_ost_idx t = elim t.ost_idx [ none ↦ codes "None" | some z ↦ Int.format z ]

-- A local variable that is read: the branch taken may have given it no value.
abbrev pub local_value : Option Text → Result Text
local_value none = err unbound_local_error
local_value (some text) = ok text

abbrev pub without_file : IoState → IoState
without_file s = record s { file = none }

-- `if os.path.exists(file_path): os.remove(file_path)`
unfoldable pub remove_existing : Result (Unit {0}) → Option Text → Io
remove_existing answer none = pure tt
remove_existing answer (some _) = do lift answer; modify without_file

abbrev after_exit : {A : Type 0} → Result A → Result (Unit {0}) × IoState → Result A × IoState
after_exit r (ok _, s) = (r, s)
after_exit r (err e, s) = (err e, s)

-- `with AutoRemoveFile(file_path): m`. An exception of the removal takes the place of one of the block.
unfoldable pub auto_remove : {A : Type 0} → Result (Unit {0}) → Exec IoState A → Exec IoState A
unfolding remove_existing
auto_remove answer m s =
    let (r, after) = m s in after_exit r (remove_existing answer after.file after)

module _ (fl : Floats) where
  -- The block under `with`; what an alert adds to it before the write and before the read comes as an argument.
  unfoldable pub perf_test : Answers fl → Io → Io → IoTask → Exec IoState (PerfResult fl)
  unfolding remove_existing
  perf_test a on_write on_read t = do
    (λ s. remove_existing a.removes s.file s)
    lift a.stripes
    modify (λ s. record s { file = a.striped_file })
    on_write
    w ← write_file fl a.write t
    on_read
    r ← read_file fl a.read t
    pure (record {
      read_timestamp = a.read_timestamp;
      write_timestamp = a.write_timestamp;
      ost = str_ost_idx t;
      size = t.total_size_bytes;
      read_throughput = r.1;
      write_throughput = w.1;
      read_duration = r.0;
      write_duration = w.0;
    })

  -- The result for an OST that is not active: the debug message takes the variable `str_ost_idx`, before the line of
  -- zeros is made with it.
  unfoldable pub inactive_result : Answers fl → IoTask → Option Text → Exec IoState (PerfResult fl)
  inactive_result a t str_ost_idx = do
    name ← lift (local_value str_ost_idx)
    pure (record {
      read_timestamp = a.inactive_timestamp;
      write_timestamp = a.inactive_timestamp;
      ost = name;
      size = t.total_size_bytes;
      read_throughput = fl.of_int (pos 0);
      write_throughput = fl.of_int (pos 0);
      read_duration = fl.of_int (pos 0);
      write_duration = fl.of_int (pos 0);
    })

  -- The branches of `if self.lfs_utils.is_ost_idx_active(…)`. Only the first gives the variable `str_ost_idx` a value.
  unfoldable pub test_if_active :
      Answers fl → Io → Io → IoTask → Bool → Exec IoState (PerfResult fl)
  unfolding auto_remove inactive_result
  test_if_active a on_write on_read t true = do
    initialize_payload t
    auto_remove a.removes_at_exit (perf_test a on_write on_read t)
  test_if_active a on_write on_read t false = inactive_result a t none

  -- `if self.db_proxy_endpoint: … sock.send_string(…)`
  unfoldable pub send_result : Answers fl → Option Text → PerfResult fl → Io
  send_result a none r = pure tt
  send_result a (some endpoint) r = do
    lift a.sends
    modify (λ s. record s { sent = s.sent ++ (endpoint, to_csv_list fl r) ∷ [] })

  -- The body of the `try` of `execute`
  unfoldable pub try_execute : Answers fl → Io → Io → IoTask → Io
  unfolding test_if_active send_result
  try_execute a on_write on_read t = do
    active ← lift (a.is_ost_idx_active t.lfs_target t.ost_idx)
    r ← test_if_active a on_write on_read t active
    send_result a t.db_proxy_endpoint r

  -- `execute` of `LustreIOTask`
  unfoldable pub execute : Answers fl → IoTask → Io
  unfolding try_execute
  execute a t = or_default (try_execute a (pure tt) (pure tt) t) tt
