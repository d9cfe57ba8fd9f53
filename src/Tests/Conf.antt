-- ===== src/Tests/Conf.antt =====
-- The theorems on the settings and on the XML reader at concrete inputs.
use cyclone_distributed_task.Prelude.{
  ◌≡◌, refl, true, false, none, [], ◌∷◌, Text, text_eq, ◌==◌, pos, codes, if◌then◌else◌, int_ltb,
}
use cyclone_distributed_task.Py.Int
use cyclone_distributed_task.Py.Result.{Result, ok, err, task_xml_reader_error}
use cyclone_distributed_task.Conf.{
  assign_controller_settings, ControllerSettings, read_controller_settings,
}
use cyclone_distributed_task.Conf.Ranges.{Within, settings-Within}
use cyclone_distributed_task.Comm.{Handler, new_handler}
use cyclone_distributed_task.Task.Xml.{
  define_task, Element, element, nil, cons, read_task_definition,
}
use cyclone_distributed_task.Task.Xml.Unique.{described, read_task_definition-described}

-- A configuration whose options are all the same number, but for the port
abbrev options : Text → Text → Result Text
options section option = if option == codes "port" then ok (codes "5555") else ok (codes "8")

abbrev settings : ControllerSettings
settings = record {
  pid_file = codes "8";
  request_retry_wait_duration = pos 8;
  max_num_request_retries = pos 8;
  comm_target = codes "8";
  comm_port = pos 5555;
  poll_timeout = pos 8000;
  log_filename = codes "8";
  worker_count = pos 8;
}

abbrev handler : Handler
handler = record {
  target = codes "8";
  port = pos 5555;
  timeout = pos 8000;
  endpoint = codes "tcp://8:5555";
  is_connected = false;
  fqdn = codes "node";
  open_contexts = 0;
  open_sockets = 0;
  registered = false;
}

settings_read : read_controller_settings true options ≡ ok settings
unfolding read_controller_settings assign_controller_settings Int.parse
settings_read = refl

handler_made : new_handler (codes "8") (pos 5555) (pos 8000) (codes "node") ≡ ok handler
unfolding new_handler Int.format
handler_made = refl

settings-Within_example :
    Within 1 (pos 8) 1000 × Within 1024 (pos 5555) 65534 × (int_ltb (pos 8000) (pos 0) ≡ false)
settings-Within_example =
    settings-Within true options settings (codes "node") handler settings_read handler_made

abbrev task_element : Text → Element
task_element name = element (codes "task") ((codes "name", name) ∷ []) none (
    cons
      (element (codes "class")
        ((codes "module", codes "task.empty_task") ∷ (codes "name", codes "EmptyTask") ∷ []) none
        nil)
      nil)

abbrev two_tasks : Element
two_tasks =
    element (codes "tasks") [] none
      (cons (task_element (codes "a")) (cons (task_element (codes "b")) nil))

read_task_definition-described_example :
    read_task_definition true (ok two_tasks) (codes "b") ≡ described (ok two_tasks) (codes "b")
read_task_definition-described_example =
    read_task_definition-described true (ok two_tasks) (codes "b")

-- The definition of the task named "b"
defined :
    read_task_definition true (ok two_tasks) (codes "b")
    ≡ ok (record {
      class_module = codes "task.empty_task";
      class_name = codes "EmptyTask";
      class_properties = [];
    })
unfolding read_task_definition define_task
defined = refl

-- A name that two tasks have
repeated :
    read_task_definition true
      (ok (
        element
          (codes "tasks")
          []
          none
          (cons (task_element (codes "a")) (cons (task_element (codes "a")) nil))))
      (codes "a")
    ≡ err task_xml_reader_error
unfolding read_task_definition define_task
repeated = refl
