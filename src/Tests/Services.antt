-- ===== src/Tests/Services.antt =====
-- The theorems on the database proxy at a concrete run.
use cyclone_distributed_task.Prelude.{
  ◌≡◌, ◌<◌, ◌+◌, ◌-◌, ℕ, refl, ap, ◌∙◌, Option, none, some, List, [], ◌∷◌, ◌++◌, Text, codes, arith,
  length, map, nat_beq, if◌then◌else◌,
}
use cyclone_distributed_task.Py.Result.{ok}
use cyclone_distributed_task.Py.Str.{join, Lacks}
use cyclone_distributed_task.Database.{
  ProxyConfig, ProxyState, ProxyRound, Answer, row_count, run, main, concat, insert_into,
}
use cyclone_distributed_task.Database.Statement.{insert_rows, AreRows, Inserts, in_brackets}
use cyclone_distributed_task.Database.Kept.{HasStored, main-stores, run-keeps_records}

abbrev brackets : Text → ℕ
brackets [] = 0
brackets (c ∷ text) = (if nat_beq c b')' then 1 else 0) + brackets text

-- A database that counts the rows by their closing brackets; the list of the columns has one too.
abbrev database : Text → Answer
database sql = row_count (brackets sql - 1)

brackets-append : (a b : Text) → brackets (a ++ b) ≡ brackets a + brackets b
brackets-append [] b = omega arith
brackets-append (c ∷ a) b = omega (arith, brackets-append a b)

brackets-Lacks : (text : Text) → Lacks b')' text → brackets text ≡ 0
brackets-Lacks [] h = refl
brackets-Lacks (c ∷ text) h = ground (arith, brackets-Lacks text h.1)

brackets-row : (row : Text) → Lacks b')' row → brackets (in_brackets row) ≡ 1
brackets-row row h = omega (arith, brackets-append row (codes ")"), brackets-Lacks row h)

brackets-join :
    (rows : List Text) → AreRows rows → brackets (join b',' (map in_brackets rows)) ≡ length rows
unfolding join
brackets-join [] h = refl
brackets-join (row ∷ []) h = brackets-row row h.0
brackets-join (row ∷ next ∷ rest) h =
    brackets-append (in_brackets row) _
    ∙ omega (arith, brackets-row row h.0, brackets-join (next ∷ rest) h.1)

database-Inserts : Inserts (codes "perf") database
unfolding insert_into
database-Inserts rows h =
    ap (λ n. row_count (n - 1))
      (brackets-append (insert_into (codes "perf")) _ ∙ ap (λ n. 1 + n) (brackets-join rows h))
    ∙ ap row_count (omega arith)

abbrev proxy : ProxyConfig
proxy = record { store_timeout = 60; store_max_count = 2; table = codes "perf" }

abbrev idle : ProxyState
idle = record { ost_perf_result_list = []; last_store_timestamp = 100; statements = [] }

abbrev round_with : Option Text → ProxyRound
round_with text = record {
  last_exec_timestamp = 110;
  recv_data = text;
  answer = database;
  store_time = 111;
}

abbrev rounds : List ProxyRound
rounds =
    round_with (some (codes "'a',1")) ∷ round_with none ∷ round_with (some (codes "'b',2")) ∷ []

run-keeps_records_example :
    (t : ProxyState) × (run proxy rounds idle ≡ (ok tt, t))
    × HasStored (codes "perf") idle t (codes "'a',1" ∷ codes "'b',2" ∷ [])
    × (length t.ost_perf_result_list < 2)
run-keeps_records_example = run-keeps_records proxy rounds idle (omega arith) tt (
  (database-Inserts, (λ e. cc e), (omega arith, tt)),
  ((database-Inserts, (λ e. cc e), tt), ((database-Inserts, (λ e. cc e), (omega arith, tt)), tt)),
)

main-stores_example :
    (t : ProxyState) × (main proxy rounds database idle ≡ (ok tt, t))
    × (t.ost_perf_result_list ≡ [])
    × ((batches : List (List Text)) × (t.statements ≡ map (insert_rows (codes "perf")) batches)
        × (concat batches ≡ codes "'a',1" ∷ codes "'b',2" ∷ []))
main-stores_example =
    main-stores proxy rounds database idle (omega arith) tt
      (
        (database-Inserts, (λ e. cc e), (omega arith, tt)),
        (
          (database-Inserts, (λ e. cc e), tt),
          ((database-Inserts, (λ e. cc e), (omega arith, tt)), tt),
        ),
      )
      database-Inserts
