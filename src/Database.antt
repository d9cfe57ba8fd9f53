-- ===== src/Database.antt =====
-- cyclone-database-proxy.py and db/ost_perf_history_table_handler.py: the loop that collects results and
-- stores them in batches. A database is the list of
-- the statements that it has executed.
pub mod Kept
pub mod Statement
use cyclone_distributed_task.Prelude.{
  ℕ, ◌+◌, Bool, not, ◌||◌, ◌&&◌, Option, none, some, List, [], ◌∷◌, ◌++◌, Text, codes, length, leb,
  nat_beq, is_nil, if◌then◌else◌,
}
use cyclone_distributed_task.Py.Result.{ok, err, runtime_error}
use cyclone_distributed_task.Py.Exec.{Exec, pure, modify, ◌>>◌}

pub record ProxyConfig : Type 0 where
  pub store_timeout : ℕ
  pub store_max_count : ℕ
  pub table : Text

pub record ProxyState : Type 0 where
  pub ost_perf_result_list : List Text
  pub last_store_timestamp : ℕ
  pub statements : List Text

abbrev pub Handler : Type 0 → Type 0
Handler = Exec ProxyState

-- What the database does with a statement: it raises, or it inserts and counts rows.
pub data Answer : Type 0 where
  refused : Answer
  row_count : ℕ → Answer

-- What one round reads from outside
pub record ProxyRound : Type 0 where
  pub last_exec_timestamp : ℕ
  pub recv_data : Option Text
  pub answer : Text → Answer
  pub store_time : ℕ

-- `insert`
unfoldable pub insert : Text → Handler (Unit {0})
insert ost_perf_result s =
    if is_nil ost_perf_result
    then (err runtime_error, s)
    else (ok tt, record s { ost_perf_result_list = s.ost_perf_result_list ++ ost_perf_result ∷ [] })

-- The text of `INSERT INTO` up to the rows
unfoldable pub insert_into : Text → Text
insert_into table =
    codes "INSERT INTO "
    ++ table
    ++ codes
        "(read_timestamp, write_timestamp, ost, size, read_throughput, write_throughput, read_duration, write_duration) VALUES "

-- `for i in range(1, len_ost_perf_result_list): …`
unfoldable pub append_rows : Text → List Text → Text
append_rows sql [] = sql
append_rows sql (row ∷ rest) = append_rows (sql ++ (codes ",(" ++ row ++ codes ")")) rest

-- The statement for the records
unfoldable pub sql_of : Text → List Text → Text
unfolding insert_into append_rows
sql_of table [] = insert_into table
sql_of table (row ∷ rest) = append_rows (insert_into table ++ (codes "(" ++ row ++ codes ")")) rest

-- `cur.execute(sql)` with its answer, and the test of the number of rows
unfoldable pub answered : Text → Answer → Handler (Unit {0})
answered sql refused s = (err runtime_error, s)
answered sql (row_count n) s = (
  if nat_beq n (length s.ost_perf_result_list) then ok tt else err runtime_error,
  record s { statements = s.statements ++ sql ∷ [] },
)

unfoldable pub store : Text → (Text → Answer) → Handler (Unit {0})
unfolding answered
store table answer s = let sql = sql_of table s.ost_perf_result_list in answered sql (answer sql) s

-- `clear`
unfoldable pub clear : Handler (Unit {0})
clear = modify (λ s. record s { ost_perf_result_list = [] })

unfoldable pub receive : Option Text → Handler (Unit {0})
receive none = pure tt
receive (some recv_data) = insert recv_data

abbrev pub is_due : ProxyConfig → ProxyRound → ProxyState → Bool
is_due c r s =
    (leb (s.last_store_timestamp + c.store_timeout) r.last_exec_timestamp
      || leb c.store_max_count (length s.ost_perf_result_list))
    && not (is_nil s.ost_perf_result_list)

unfoldable pub store_all : ProxyConfig → ProxyRound → Handler (Unit {0})
store_all c r = do
  store c.table r.answer
  clear
  modify (λ s. record s { last_store_timestamp = r.store_time })

unfoldable pub store_if_due : ProxyConfig → ProxyRound → Handler (Unit {0})
store_if_due c r s = (if is_due c r s then store_all c r else pure tt) s

unfoldable pub round : ProxyConfig → ProxyRound → Handler (Unit {0})
round c r = do receive r.recv_data; store_if_due c r

-- The loop: an exception ends it.
unfoldable pub run : ProxyConfig → List ProxyRound → Handler (Unit {0})
run c [] s = (ok tt, s)
run c (r ∷ rs) s = (do round c r; run c rs) s

-- What is left at the end is stored.
unfoldable pub finish : ProxyConfig → (Text → Answer) → Handler (Unit {0})
finish c answer s =
    (if is_nil s.ost_perf_result_list then pure tt else (do store c.table answer; clear)) s

-- The loop and what follows it. An exception of the loop is caught before.
unfoldable pub main : ProxyConfig → List ProxyRound → (Text → Answer) → Handler (Unit {0})
main c rs answer s = let (result, after) = run c rs s in finish c answer after

abbrev pub concat : List (List Text) → List Text
concat [] = []
concat (b ∷ bs) = b ++ concat bs

abbrev pub received_of : Option Text → List Text
received_of none = []
received_of (some recv_data) = recv_data ∷ []

abbrev pub received : List ProxyRound → List Text
received [] = []
received (r ∷ rs) = received_of r.recv_data ++ received rs
