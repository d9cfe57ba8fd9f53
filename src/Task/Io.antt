-- ===== src/Task/Io.antt =====
-- task/lustre_io_task.py and db/ost_perf_result.py: the attributes of an I/O task, its constructor and the
-- line of values that it reports. The files, the run and the alerts are in the modules below.
pub mod Block
pub mod Reading
pub mod Execute
pub mod Alert
pub mod Sent
pub mod Cleanup
pub mod RoundTrip
use cyclone_distributed_task.Prelude.{
  ◌==◌, text_eq, Option, none, some, List, [], ◌∷◌, ◌++◌, Text, ℤ, codes, is_nil, if◌then◌else◌,
  not, ◌||◌, ◌&&◌, Bool,
}
use cyclone_distributed_task.Py.Result.{
  Result, ok, err, runtime_error, type_error, ◌>>=◌, ◌>>◌, raise_if,
}
use cyclone_distributed_task.Py.Int
use cyclone_distributed_task.Task.Object.{Value, none_value, text, int, bool, float}

-- What the code asks of Python's floats. `elapsed start end` is `(end - start) / 1000.0`, `per n d` is
-- `n / d`, and `rounded x` is `int(round(x, 0))`.
pub record Floats : Type 1 where
  pub Float : Type 0
  pub of_int : ℤ → Float
  pub elapsed : Float → Float → Float
  pub is_zero : Float → Bool
  pub per : ℤ → Float → Float
  pub rounded : Float → ℤ

pub record IoTask : Type 0 where
  pub ost_idx : Option ℤ
  pub block_size_bytes : ℤ
  pub total_size_bytes : ℤ
  pub write_file_sync : Text
  pub target_dir : Text
  pub lfs_bin : Text
  pub lfs_target : Text
  pub db_proxy_target : Text
  pub db_proxy_port : Text
  pub db_proxy_endpoint : Option Text

-- The setter of `ost_idx`
unfoldable pub read_ost_idx : Value → Result (Option ℤ)
read_ost_idx (int z) = ok (some z)
read_ost_idx (text []) = ok none
read_ost_idx (text (c ∷ s)) = do z ← Int.parse (c ∷ s); ok (some z)
read_ost_idx none_value = ok none
read_ost_idx (bool b) = ok none
read_ost_idx (float s) = ok none

-- `f"tcp://{target}:{port}"`, if both are set
unfoldable pub endpoint : Text → Text → Option Text
endpoint target port =
    if not (is_nil target) && not (is_nil port)
    then some (codes "tcp://" ++ target ++ (b':' ∷ port))
    else none

abbrev pub is_switch : Text → Bool
is_switch s = s == codes "on" || s == codes "off"

-- `__init__`, from the nine texts of a task definition
unfoldable pub io_init : List Text → Result IoTask
unfolding read_ost_idx endpoint
io_init (ost_idx ∷ block_size ∷ total_size ∷ sync ∷ dir ∷ bin ∷ target ∷ proxy ∷ port ∷ []) = do
  idx ← read_ost_idx (text ost_idx)
  block ← Int.parse block_size
  total ← Int.parse total_size
  raise_if (not (is_switch sync)) runtime_error
  ok (record {
    ost_idx = idx;
    block_size_bytes = block;
    total_size_bytes = total;
    write_file_sync = sync;
    target_dir = dir;
    lfs_bin = bin;
    lfs_target = target;
    db_proxy_target = proxy;
    db_proxy_port = port;
    db_proxy_endpoint = endpoint proxy port;
  })
io_init _ = err type_error

module _ (fl : Floats) where
  open fl use {Float, rounded}

  -- `OSTPerfResult`
  pub record PerfResult : Type 0 where
    pub read_timestamp : Text
    pub write_timestamp : Text
    pub ost : Text
    pub size : ℤ
    pub read_throughput : Float
    pub write_throughput : Float
    pub read_duration : Float
    pub write_duration : Float

  abbrev quoted : Text → Text
  quoted s = b'\'' ∷ (s ++ codes "',")

  -- `to_csv_list`
  unfoldable pub to_csv_list : PerfResult → Text
  to_csv_list r =
      quoted r.read_timestamp
      ++ quoted r.write_timestamp
      ++ quoted r.ost
      ++ Int.format r.size
      ++ (b',' ∷ Int.format (rounded r.read_throughput))
      ++ (b',' ∷ Int.format (rounded r.write_throughput))
      ++ (b',' ∷ Int.format (rounded r.read_duration))
      ++ (b',' ∷ Int.format (rounded r.write_duration))
