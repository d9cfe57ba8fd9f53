-- ===== src/Conf.antt =====
-- conf/: the readers of the configuration files. `ConfigParser.get` is an input: section and option give a text.
pub mod Ranges
use cyclone_distributed_task.Prelude.{
  ℕ, zero, suc, ◌*◌, ◌-◌, ◌||◌, Bool, true, false, Text, ℤ, pos, negsuc, codes, int_ltb, not,
  if◌then◌else◌, ◌+◌,
}
use cyclone_distributed_task.Py.Result.{
  Result, ok, err, io_error, config_value_error, ◌>>=◌, ◌>>◌, raise_if,
}
use cyclone_distributed_task.Py.Int

-- `int(s) * 1000`
abbrev pub thousand_times : ℤ → ℤ
thousand_times (pos n) = pos (n * 1000)
thousand_times (negsuc n) = negsuc (n * 1000 + 999)

-- `ControllerConfigFileReader`
pub record ControllerSettings : Type 0 where
  pub pid_file : Text
  pub request_retry_wait_duration : ℤ
  pub max_num_request_retries : ℤ
  pub comm_target : Text
  pub comm_port : ℤ
  pub poll_timeout : ℤ
  pub log_filename : Text
  pub worker_count : ℤ

-- `DatabaseProxyConfigFileReader`
pub record ProxySettings : Type 0 where
  pub pid_file : Text
  pub comm_target : Text
  pub comm_port : ℤ
  pub poll_timeout : ℤ
  pub log_filename : Text
  pub host : Text
  pub user : Text
  pub password : Text
  pub database : Text
  pub table : Text
  pub store_timeout : ℤ
  pub store_max_count : ℤ

-- `MasterConfigFileReader`; `controller_timeout` carries the `repr` of a float.
pub record MasterSettings : Type 0 where
  pub pid_file : Text
  pub controller_timeout : Text
  pub controller_wait_duration : ℤ
  pub task_resend_timeout : ℤ
  pub comm_target : Text
  pub comm_port : ℤ
  pub poll_timeout : ℤ
  pub log_filename : Text
  pub task_gen_module : Text
  pub task_gen_class : Text
  pub task_gen_config_file : Text

-- `PushgatewayConfigFileReader`
pub record PushSettings : Type 0 where
  pub pid_file : Text
  pub push_interval : ℤ
  pub push_url : Text
  pub push_timeout : ℤ
  pub comm_target : Text
  pub comm_port : ℤ
  pub poll_timeout : ℤ
  pub log_filename : Text

-- `validate`
unfoldable pub validate : ControllerSettings → Result (Unit {0})
validate c =
    raise_if (int_ltb c.worker_count (pos 1) || int_ltb (pos 1000) c.worker_count)
      config_value_error

module _ (isfile : Bool) (get : Text → Text → Result Text) where
  -- `config.getint(section, option)`
  unfoldable pub getint : Text → Text → Result ℤ
  getint section option = do s ← get section option; Int.parse s

  -- The attributes of the controller's settings, as `__init__` assigns them
  unfoldable pub assign_controller_settings : Result ControllerSettings
  unfolding getint
  assign_controller_settings = do
    raise_if (not isfile) io_error
    pid_file ← get (codes "control") (codes "pid_file")
    wait ← getint (codes "control") (codes "request_retry_wait_duration")
    retries ← getint (codes "control") (codes "max_num_request_retries")
    target ← get (codes "comm") (codes "target")
    port ← getint (codes "comm") (codes "port")
    seconds ← getint (codes "comm") (codes "poll_timeout")
    log ← get (codes "log") (codes "filename")
    count ← getint (codes "processing") (codes "worker_count")
    ok (record {
      pid_file = pid_file;
      request_retry_wait_duration = wait;
      max_num_request_retries = retries;
      comm_target = target;
      comm_port = port;
      poll_timeout = thousand_times seconds;
      log_filename = log;
      worker_count = count;
    })

  unfoldable pub read_controller_settings : Result ControllerSettings
  unfolding validate
  read_controller_settings = do
    settings ← assign_controller_settings
    validate settings
    ok settings

  unfoldable pub read_proxy_settings : Result ProxySettings
  unfolding getint
  read_proxy_settings = do
    raise_if (not isfile) io_error
    pid_file ← get (codes "control") (codes "pid_file")
    target ← get (codes "comm") (codes "target")
    port ← getint (codes "comm") (codes "port")
    seconds ← getint (codes "comm") (codes "poll_timeout")
    log ← get (codes "log") (codes "filename")
    host ← get (codes "db") (codes "host")
    user ← get (codes "db") (codes "user")
    password ← get (codes "db") (codes "password")
    database ← get (codes "db") (codes "database")
    table ← get (codes "db") (codes "table")
    store_timeout ← getint (codes "db") (codes "store_timeout")
    store_max_count ← getint (codes "db") (codes "store_max_count")
    ok (record {
      pid_file = pid_file;
      comm_target = target;
      comm_port = port;
      poll_timeout = thousand_times seconds;
      log_filename = log;
      host = host;
      user = user;
      password = password;
      database = database;
      table = table;
      store_timeout = store_timeout;
      store_max_count = store_max_count;
    })

  -- `getfloat` is a parameter beside.
  unfoldable pub read_master_settings : (Text → Result Text) → Result MasterSettings
  unfolding getint
  read_master_settings float = do
    raise_if (not isfile) io_error
    pid_file ← get (codes "control") (codes "pid_file")
    timeout ← get (codes "control") (codes "controller_timeout")
    controller_timeout ← float timeout
    wait ← getint (codes "control") (codes "controller_wait_duration")
    resend ← getint (codes "control") (codes "task_resend_timeout")
    target ← get (codes "comm") (codes "target")
    port ← getint (codes "comm") (codes "port")
    seconds ← getint (codes "comm") (codes "poll_timeout")
    log ← get (codes "log") (codes "filename")
    gen_module ← get (codes "task_generator") (codes "module")
    gen_class ← get (codes "task_generator") (codes "class")
    gen_config ← get (codes "task_generator") (codes "config_file")
    ok (record {
      pid_file = pid_file;
      controller_timeout = controller_timeout;
      controller_wait_duration = wait;
      task_resend_timeout = resend;
      comm_target = target;
      comm_port = port;
      poll_timeout = thousand_times seconds;
      log_filename = log;
      task_gen_module = gen_module;
      task_gen_class = gen_class;
      task_gen_config_file = gen_config;
    })

  unfoldable pub read_push_settings : Result PushSettings
  unfolding getint
  read_push_settings = do
    raise_if (not isfile) io_error
    pid_file ← get (codes "control") (codes "pid_file")
    interval ← getint (codes "push") (codes "interval")
    url ← get (codes "push") (codes "url")
    timeout ← getint (codes "push") (codes "timeout")
    target ← get (codes "comm") (codes "target")
    port ← getint (codes "comm") (codes "port")
    seconds ← getint (codes "comm") (codes "poll_timeout")
    log ← get (codes "log") (codes "filename")
    ok (record {
      pid_file = pid_file;
      push_interval = interval;
      push_url = url;
      push_timeout = timeout;
      comm_target = target;
      comm_port = port;
      poll_timeout = thousand_times seconds;
      log_filename = log;
    })
