-- ===== src/Task/Io/Sent.antt =====
-- What a run of an I/O task leaves: the line sent to the proxy, the mails, and no test file.
use cyclone_distributed_task.Prelude.{
  true, false, none, some, ◌≡◌, refl, ap, ◌∙◌, List, [], ◌∷◌, ◌++◌, Text, ℕ, suc, pos, Option, Bool,
  append-nil,
}
use cyclone_distributed_task.Py.Number.{replicate}
use cyclone_distributed_task.Py.Result.{err, Result, ok}
use cyclone_distributed_task.Py.Utf8.{text_of-letters}
use cyclone_distributed_task.Task.Io.{Floats, IoTask, PerfResult, to_csv_list}
use cyclone_distributed_task.Task.Io.Block.{IoState, write_file, read_file, measured}
use cyclone_distributed_task.Task.Io.Reading.{Delivers, read_file-eq}
use cyclone_distributed_task.Task.Io.RoundTrip.{
  HasPayload, initialize_payload-loaded, loaded, loaded-HasPayload, Accepts, write_file-file,
  with_file, pos_suc, size-replicate,
}
use cyclone_distributed_task.Task.Io.Execute.{
  Answers, Io, str_ost_idx, without_file, remove_existing, auto_remove, perf_test, test_if_active,
  send_result, try_execute,
}
use cyclone_distributed_task.Task.Io.Alert.{
  alert_execute, Alarms, AlertTask, alert_if, write_mail_text, read_mail_text,
}

-- The call only appends the mails.
abbrev pub Mails : Io → List (Text × Text) → Type 0
Mails hook mails = (s : IoState) → hook s ≡ (ok tt, record s { mails = s.mails ++ mails })

same_without : (s : IoState) → s.file ≡ none → s ≡ without_file s
same_without s e = ap (λ f. record s { file = f }) e

removed : (s : IoState) → remove_existing (ok tt) s.file s ≡ (ok tt, without_file s)
unfolding remove_existing
removed s = go s.file refl
  where
    go :
        (file : Option Text)
        → s.file ≡ file
        → remove_existing (ok tt) file s ≡ (ok tt, without_file s)
    go none e = ap (λ after. (ok tt, after)) (same_without s e)
    go (some content) e = refl

-- The answers of a run in which nothing fails
pub record Succeeds {fl : Floats} (a : Answers fl) : Type 0 where
  pub removed : a.removes ≡ ok tt
  pub striped : a.stripes ≡ ok tt
  pub writes : Accepts a.write
  pub reads_open : a.read.opens ≡ ok tt
  pub reads : Delivers a.read.delivers
  pub removed_at_exit : a.removes_at_exit ≡ ok tt
  pub sent : a.sends ≡ ok tt

-- The result that such a run reports
abbrev pub reported : (fl : Floats) → Answers fl → IoTask → PerfResult fl
reported fl a t =
    let w = measured fl t.total_size_bytes a.write.starts a.write.ends in
    let r = measured fl t.total_size_bytes a.read.starts a.read.ends in
    record {
      read_timestamp = a.read_timestamp;
      write_timestamp = a.write_timestamp;
      ost = str_ost_idx t;
      size = t.total_size_bytes;
      read_throughput = r.1;
      write_throughput = w.1;
      read_duration = r.0;
      write_duration = w.0;
    }

-- The mails of one timer
abbrev pub mailed : Bool → Result (Unit {0}) → Text × Text → List (Text × Text)
mailed true (ok _) mail = mail ∷ []
mailed true (err _) mail = []
mailed false answer mail = []

alert_if-Mails :
    (late : Bool) (answer : Result (Unit {0})) (mail : Text × Text)
    → Mails (alert_if late answer mail) (mailed late answer mail)
unfolding alert_if
alert_if-Mails true (ok _) mail s = refl
alert_if-Mails true (err _) mail s = simp append-nil
alert_if-Mails false answer mail s = simp append-nil

module _ (fl : Floats) (a : Answers fl) (t : IoTask) (block total : ℕ)
    (eb : t.block_size_bytes ≡ pos (suc block)) (et : t.total_size_bytes ≡ pos total)
    (good : Succeeds a) where
  abbrev written : IoState → IoState
  written s = with_file (replicate total b'A') s

  wrote :
      (s : IoState)
      → HasPayload block total s
      → write_file fl a.write t s
        ≡ (ok (measured fl t.total_size_bytes a.write.starts a.write.ends), written s)
  wrote s has = write_file-file fl a.write t block total s eb et has good.writes

  read_back :
      (s : IoState)
      → read_file fl a.read t (written s)
        ≡ (ok (measured fl t.total_size_bytes a.read.starts a.read.ends), written s)
  read_back s =
      read_file-eq fl a.read t (written s) (rw eb (pos_suc block)) good.reads_open good.reads
      ∙ simp (size-replicate t total et, text_of-letters total)

  perf_test-reported :
      (on_write on_read : Io) (m1 m2 : List (Text × Text)) (s : IoState)
      → Mails on_write m1
      → Mails on_read m2
      → HasPayload block total s
      → perf_test fl a on_write on_read t s
        ≡ (ok (reported fl a t), record (written s) { mails = s.mails ++ m1 ++ m2 })
  unfolding perf_test
  perf_test-reported on_write on_read m1 m2 s h1 h2 has =
      let striped = record s { file = a.striped_file } in
      let after_write = record striped { mails = s.mails ++ m1 } in
      let has' : HasPayload block total after_write = record {
        block_set = has.block_set;
        rest_set = has.rest_set;
      } in
      simp
        (
          good.removed,
          removed s,
          good.striped,
          h1 striped,
          wrote after_write has',
          h2 (written after_write),
          read_back (record after_write { mails = (s.mails ++ m1) ++ m2 }),
        )
        refl

  try_execute-reported :
      (on_write on_read : Io) (m1 m2 : List (Text × Text)) (endpoint : Text) (s : IoState)
      → Mails on_write m1
      → Mails on_read m2
      → s.payload_rest_block ≡ []
      → a.is_ost_idx_active t.lfs_target t.ost_idx ≡ ok true
      → t.db_proxy_endpoint ≡ some endpoint
      → try_execute fl a on_write on_read t s ≡ (
        ok tt,
        record (loaded block total s) {
          file = none;
          sent = s.sent ++ (endpoint, to_csv_list fl (reported fl a t)) ∷ [];
          mails = s.mails ++ m1 ++ m2;
        },
      )
  unfolding try_execute test_if_active auto_remove send_result
  try_execute-reported on_write on_read m1 m2 endpoint s h1 h2 fresh active proxy =
      let ready = loaded block total s in
      let has = loaded-HasPayload block total s in
      simp
        (
          active,
          proxy,
          initialize_payload-loaded t block total s eb et fresh,
          perf_test-reported on_write on_read m1 m2 ready h1 h2 has,
          good.removed_at_exit,
          good.sent,
        )
        refl

-- With a positive block size, a total size that is not negative, an active OST, a proxy to report to and no
-- failure, a run of an alert task sends one line with its measures to the proxy and leaves no test file. Of the
-- two alerts it mails those whose timer went off and whose mail the server took, first that of the write. It
-- raises nothing.
pub alert_execute-Reports :
    (fl : Floats) (a : Answers fl) (alarms : Alarms) (t : AlertTask) (block total : ℕ)
    (endpoint : Text) (s : IoState)
    → t.base.block_size_bytes ≡ pos (suc block)
    → t.base.total_size_bytes ≡ pos total
    → Succeeds a
    → s.payload_rest_block ≡ []
    → a.is_ost_idx_active t.base.lfs_target t.base.ost_idx ≡ ok true
    → t.base.db_proxy_endpoint ≡ some endpoint
    → alert_execute fl a alarms t s ≡ (
      ok tt,
      record (loaded block total s) {
        file = none;
        sent = s.sent ++ (endpoint, to_csv_list fl (reported fl a t.base)) ∷ [];
        mails =
            s.mails
            ++ mailed alarms.write_is_late alarms.write_mail (write_mail_text a.write_timestamp t)
            ++ mailed alarms.read_is_late alarms.read_mail (read_mail_text a.write_timestamp t);
      },
    )
unfolding alert_execute
alert_execute-Reports fl a alarms t block total endpoint s eb et good fresh active proxy = simp (
    try_execute-reported fl a t.base block total eb et good _ _ _ _ endpoint s
      (alert_if-Mails alarms.write_is_late alarms.write_mail (write_mail_text a.write_timestamp t))
      (alert_if-Mails alarms.read_is_late alarms.read_mail (read_mail_text a.write_timestamp t))
      fresh active proxy)
