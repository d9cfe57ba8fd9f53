-- ===== src/Task/Io/Alert.antt =====
-- task/lustre_alert_io_task.py: the attributes, the mails and `execute`. Whether a timer went off before it was
-- cancelled is an input, and so are `float` and the answers of the mail server.
use cyclone_distributed_task.Prelude.{
  Bool, List, [], ◌∷◌, ◌++◌, Text, codes, if◌then◌else◌, nat_beq,
}
use cyclone_distributed_task.Py.Int
use cyclone_distributed_task.Py.Str.{split}
use cyclone_distributed_task.Py.Result.{Result, ok, err, type_error, ◌>>=◌}
use cyclone_distributed_task.Py.Exec.{pure}
use cyclone_distributed_task.Task.Io.{Floats, IoTask, io_init}
use cyclone_distributed_task.Task.Io.Block.{or_default}
use cyclone_distributed_task.Task.Io.Execute.{Answers, Io, str_ost_idx, try_execute}

-- `mail_threshold` carries the `repr` of a float.
pub record AlertTask : Type 0 where
  pub base : IoTask
  pub mail_server : Text
  pub mail_sender : Text
  pub mail_receiver : Text
  pub mail_threshold : Text
  pub mail_receiver_list : List Text

-- `s.replace(' ', '')`
unfoldable pub without_spaces : Text → Text
without_spaces [] = []
without_spaces (c ∷ s) = let rest = without_spaces s in if nat_beq c b' ' then rest else c ∷ rest

-- `__init__`, from the texts of a task definition
unfoldable pub alert_init : (Text → Result Text) → List Text → Result AlertTask
unfolding without_spaces
alert_init float (server ∷ sender ∷ receiver ∷ threshold ∷ rest) = do
  base ← io_init rest
  mail_threshold ← float threshold
  ok (record {
    base = base;
    mail_server = server;
    mail_sender = sender;
    mail_receiver = receiver;
    mail_threshold = mail_threshold;
    mail_receiver_list = split b',' (without_spaces receiver);
  })
alert_init float _ = err type_error

-- Whether the timers of the write and of the read go off, and whether the mail server takes the mail then. An
-- exception of a mail is one of the timer's thread and ends only that.
pub record Alarms : Type 0 where
  pub write_is_late : Bool
  pub write_mail : Result (Unit {0})
  pub read_is_late : Bool
  pub read_mail : Result (Unit {0})

unfoldable pub write_mail_text : Text → AlertTask → Text × Text
write_mail_text write_timestamp t = (
  codes "[LUSTRE Monitoring] OST Write Performance Degradation Detected: " ++ str_ost_idx t.base,
  codes "Timestamp: "
      ++ write_timestamp
      ++ codes "\nOST: "
      ++ str_ost_idx t.base
      ++ codes "\n\nAlert Threshold: "
      ++ t.mail_threshold
      ++ codes "s\nTotal Size: "
      ++ Int.format t.base.total_size_bytes
      ++ codes "\nBlock Size: "
      ++ Int.format t.base.block_size_bytes
      ++ codes "\nSync Flag: "
      ++ t.base.write_file_sync
      ++ codes "\n",
)

-- The text has the time of the write, as the code has it.
unfoldable pub read_mail_text : Text → AlertTask → Text × Text
read_mail_text write_timestamp t = (
  codes "[LUSTRE Monitoring] OST Read Performance Degradation Detected: " ++ str_ost_idx t.base,
  codes "OST-IDX: "
      ++ str_ost_idx t.base
      ++ codes "\nTimestamp: "
      ++ write_timestamp
      ++ codes "\nAlert Threshold: "
      ++ t.mail_threshold
      ++ codes "s",
)

-- `_send_mail` with the two arguments of a timer: the mail is sent if the server answers.
unfoldable pub send_mail : Result (Unit {0}) → Text × Text → Io
send_mail answer mail s = elim answer [
  | ok _ ↦ (ok tt, record s { mails = s.mails ++ mail ∷ [] })
  | err _ ↦ (ok tt, s)
]

unfoldable pub alert_if : Bool → Result (Unit {0}) → Text × Text → Io
unfolding send_mail
alert_if late answer mail = if late then send_mail answer mail else pure tt

-- `execute` of `LustreAlertIOTask`
unfoldable pub alert_execute : (fl : Floats) → Answers fl → Alarms → AlertTask → Io
alert_execute fl a alarms t =
    or_default
      (try_execute fl a
        (alert_if alarms.write_is_late alarms.write_mail (write_mail_text a.write_timestamp t))
        (alert_if alarms.read_is_late alarms.read_mail (read_mail_text a.write_timestamp t)) t.base)
      tt
