-- ===== src/Tests/Io.antt =====
-- The theorems on the I/O tasks at concrete inputs. Times are whole milliseconds here.
use cyclone_distributed_task.Prelude.{
  negsuc, zero, ◌-◌, ◌/◌, ◌≡◌, refl, true, false, none, some, [], ◌∷◌, ℤ, pos, codes, Bool,
}
use cyclone_distributed_task.Py.Int
use cyclone_distributed_task.Task.Io.Execute.{str_ost_idx, Answers, execute}
use cyclone_distributed_task.Py.Number.{rounds}
use cyclone_distributed_task.Py.Result.{ok, err, io_error}
use cyclone_distributed_task.Task.Io.{Floats, IoTask, to_csv_list}
use cyclone_distributed_task.Task.Io.Block.{
  IoState, WriteAnswers, ReadAnswers, initialize_payload, write_file, read_file, measured,
}
use cyclone_distributed_task.Task.Io.Reading.{read_file-eq}
use cyclone_distributed_task.Task.Io.RoundTrip.{pos_suc, Accepts, loaded, read_file-write_file}
use cyclone_distributed_task.Task.Io.Alert.{Alarms, AlertTask, alert_execute, write_mail_text}
use cyclone_distributed_task.Task.Io.Sent.{Succeeds, alert_execute-Reports, reported}
use cyclone_distributed_task.Task.Io.Cleanup.{execute-HasNoFile}
use cyclone_distributed_task.Py.Utf8.{text_of, decode_from, translate_from}

abbrev is_zero : ℤ → Bool
is_zero (pos zero) = true
is_zero _ = false

abbrev whole : Floats
whole = record {
  Float = ℤ;
  of_int = λ z. z;
  elapsed = λ a b. pos ((rounds b - rounds a) / 1000);
  is_zero = is_zero;
  per = λ n d. pos (rounds n / rounds d);
  rounded = λ z. z;
}

abbrev write_answers : WriteAnswers whole
write_answers = record {
  opens = ok tt;
  accepts = λ _. ok tt;
  syncs = ok tt;
  starts = pos 1000;
  ends = pos 3000;
}

abbrev read_answers : ReadAnswers whole
read_answers = record { opens = ok tt; delivers = λ _. ok tt; starts = pos 4000; ends = pos 5000 }

abbrev task : IoTask
task = record {
  ost_idx = some (pos 12);
  block_size_bytes = pos 4;
  total_size_bytes = pos 10;
  write_file_sync = codes "on";
  target_dir = codes "/lustre";
  lfs_bin = codes "/usr/bin/lfs";
  lfs_target = codes "hebe";
  db_proxy_target = codes "proxy";
  db_proxy_port = codes "5777";
  db_proxy_endpoint = some (codes "tcp://proxy:5777");
}

abbrev idle : IoState
idle = record { payload_block = []; payload_rest_block = []; file = none; sent = []; mails = [] }

abbrev answers : Bool → Answers whole
answers active = record {
  is_ost_idx_active = λ _ _. ok active;
  inactive_timestamp = codes "2023-01-01 10:00:00";
  removes = ok tt;
  stripes = ok tt;
  striped_file = some [];
  write_timestamp = codes "2023-01-01 10:00:00";
  write = write_answers;
  read_timestamp = codes "2023-01-01 10:00:02";
  read = read_answers;
  removes_at_exit = ok tt;
  sends = ok tt;
}

abbrev alert : AlertTask
alert = record {
  base = task;
  mail_server = codes "mail";
  mail_sender = codes "a@b";
  mail_receiver = codes "c@d";
  mail_threshold = codes "1.5";
  mail_receiver_list = codes "c@d" ∷ [];
}

abbrev alarms : Alarms
alarms = record {
  write_is_late = true;
  write_mail = ok tt;
  read_is_late = true;
  read_mail = err io_error;
}

accepted : Accepts write_answers
accepted = record { opened = refl; accepted = λ i. refl; synced = refl }

succeeds : Succeeds (answers true)
succeeds = record {
  removed = refl;
  striped = refl;
  writes = accepted;
  reads_open = refl;
  reads = λ i. refl;
  removed_at_exit = refl;
  sent = refl;
}

-- An umlaut takes two bytes: the file has ten bytes and nine characters.
abbrev umlaut : IoState
umlaut = record idle { file = some (195 ∷ 164 ∷ codes "23456789") }

read_file-eq_example : read_file whole read_answers task umlaut ≡ (ok (negsuc 0, negsuc 0), umlaut)
unfolding text_of decode_from translate_from
read_file-eq_example = read_file-eq whole read_answers task umlaut (pos_suc 3) refl (λ i. refl)

read_file-write_file_example :
    let ready = (initialize_payload task idle).1 in
    let (written, after) = write_file whole write_answers task ready in
    (written ≡ ok (pos 2, pos 5))
    × (after.file ≡ some (codes "AAAAAAAAAA"))
    × (read_file whole read_answers task after ≡ (ok (pos 1, pos 10), after))
unfolding measured initialize_payload
read_file-write_file_example =
    read_file-write_file whole write_answers read_answers task 3 10 idle refl refl refl accepted
      refl (λ i. refl)

alert_execute-Reports_example : alert_execute whole (answers true) alarms alert idle ≡ (
  ok tt,
  record (loaded 3 10 idle) {
    file = none;
    sent = (codes "tcp://proxy:5777", to_csv_list whole (reported whole (answers true) task)) ∷ [];
    mails = write_mail_text (codes "2023-01-01 10:00:00") alert ∷ [];
  },
)
alert_execute-Reports_example =
    alert_execute-Reports whole (answers true) alarms alert 3 10 (codes "tcp://proxy:5777") idle
      refl refl succeeds refl refl refl

-- The line that the run above sends
line :
    to_csv_list whole (reported whole (answers true) task)
    ≡ codes "'2023-01-01 10:00:02','2023-01-01 10:00:00','12',10,10,5,1,2"
unfolding to_csv_list measured str_ost_idx Int.format
line = refl

abbrev refusing : Answers whole
refusing = record (answers true) { stripes = err io_error }

execute-HasNoFile_example :
    ((execute whole refusing task idle).0 ≡ ok tt)
    × ((execute whole refusing task idle).1.file ≡ none)
    × ((alert_execute whole refusing alarms alert idle).0 ≡ ok tt)
    × ((alert_execute whole refusing alarms alert idle).1.file ≡ none)
execute-HasNoFile_example = execute-HasNoFile whole refusing alarms alert idle refl refl
