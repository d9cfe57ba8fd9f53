-- ===== src/Database/Kept.antt =====
-- What becomes of the records that cyclone-database-proxy.py receives.
use cyclone_distributed_task.Prelude.{
  ℕ, ◌+◌, ◌≡◌, ◌≢◌, ◌<◌, refl, sym, ap, ◌∙◌, Bool, true, false, not, ◌||◌, ◌&&◌, some, List, [],
  ◌∷◌, ◌++◌, append-nil, append_assoc, Text, length, leb, nat_beq, is_nil, arith, Bool-cases, inl,
  inr, none, All, map, Option,
}
use cyclone_distributed_task.Py.Result.{Result, ok}
use cyclone_distributed_task.Py.Exec.{◌>>◌}
use cyclone_distributed_task.Database.{
  ProxyConfig, ProxyState, ProxyRound, store, answered, clear, is_due, store_all, store_if_due,
  concat, round, run, receive, received, received_of, insert, finish, main, Answer,
}
use cyclone_distributed_task.Database.Statement.{insert_rows, sql_of-insert_rows, AreRows, Inserts}

concat-append : (xs ys : List (List Text)) → concat (xs ++ ys) ≡ concat xs ++ concat ys
concat-append [] ys = refl
concat-append (x ∷ xs) ys =
    ap (λ r. x ++ r) (concat-append xs ys) ∙ sym (append_assoc x (concat xs) (concat ys))

map-append :
    (f : List Text → Text) (xs ys : List (List Text)) → map f (xs ++ ys) ≡ map f xs ++ map f ys
map-append f [] ys = refl
map-append f (x ∷ xs) ys = ap (λ r. f x ∷ r) (map-append f xs ys)

All-append : (xs ys : List Text) → AreRows xs → AreRows ys → AreRows (xs ++ ys)
All-append [] ys hx hy = hy
All-append (x ∷ xs) ys hx hy = (hx.0, All-append xs ys hx.1 hy)

-- From `s` to `t` these records were received. The statements that were executed are those that insert some batches of
-- records, and the batches and the records that still wait are together the ones that waited before and the received ones.
pub record HasStored (table : Text) (s t : ProxyState) (recs : List Text) : Type 0 where
  pub batches : List (List Text)
  pub executed : t.statements ≡ s.statements ++ map (insert_rows table) batches
  pub kept : concat batches ++ t.ost_perf_result_list ≡ s.ost_perf_result_list ++ recs
  pub rows : AreRows t.ost_perf_result_list

stored-nothing :
    (table : Text) (s : ProxyState) → AreRows s.ost_perf_result_list → HasStored table s s []
stored-nothing table s h = record {
  batches = [];
  executed = sym (append-nil s.statements);
  kept = sym (append-nil s.ost_perf_result_list);
  rows = h;
}

stored-then :
    (table : Text) (s t u : ProxyState) (recs more : List Text)
    → HasStored table s t recs
    → HasStored table t u more
    → HasStored table s u (recs ++ more)
stored-then table s t u recs more h g = record {
  batches = h.batches ++ g.batches;
  executed =
      g.executed
      ∙ ap (λ x. x ++ map (insert_rows table) g.batches) h.executed
      ∙ append_assoc s.statements (map (insert_rows table) h.batches) _
      ∙ ap (λ x. s.statements ++ x) (sym (map-append (insert_rows table) h.batches g.batches));
  kept =
      ap (λ x. x ++ u.ost_perf_result_list) (concat-append h.batches g.batches)
      ∙ append_assoc (concat h.batches) (concat g.batches) u.ost_perf_result_list
      ∙ ap (λ x. concat h.batches ++ x) g.kept
      ∙ sym (append_assoc (concat h.batches) t.ost_perf_result_list more)
      ∙ ap (λ x. x ++ more) h.kept
      ∙ append_assoc s.ost_perf_result_list recs more;
  rows = g.rows;
}

-- The state behind a store of all that waits
abbrev emptied : Text → ℕ → ProxyState → ProxyState
emptied table time s = record s {
  ost_perf_result_list = [];
  last_store_timestamp = time;
  statements = s.statements ++ insert_rows table s.ost_perf_result_list ∷ [];
}

stored-all :
    (table : Text) (time : ℕ) (s : ProxyState) → HasStored table s (emptied table time s) []
stored-all table time s = record {
  batches = s.ost_perf_result_list ∷ [];
  executed = refl;
  kept = append-nil (s.ost_perf_result_list ++ []);
  rows = tt;
}

-- What is received is not empty and holds no closing bracket, and the database inserts what it is given.
abbrev pub IsFine : Text → ProxyRound → Type 0
IsFine table r =
    Inserts table r.answer × (r.recv_data ≢ some []) × AreRows (received_of r.recv_data)

-- A step that ends well: these records were received, and fewer than the maximum wait.
abbrev Keeps : ProxyConfig → ProxyState → List Text → Result (Unit {0}) × ProxyState → Type 0
Keeps c s recs (result, t) =
    (result ≡ ok tt)
    × HasStored c.table s t recs
    × (length t.ost_perf_result_list < c.store_max_count)

not_due :
    (xs : List Text) (b : Bool) (max : ℕ)
    → 0 < max
    → ((b || leb max (length xs)) && not (is_nil xs)) ≡ false
    → length xs < max
not_due [] b max positive h = positive
not_due (x ∷ xs) b max positive h = ground arith

same_length : (xs : List Text) → nat_beq (length xs) (length xs) ≡ true
same_length xs = ground arith

store-emptied :
    (table : Text) (answer : Text → Answer) (s : ProxyState)
    → Inserts table answer
    → AreRows s.ost_perf_result_list
    → (do store table answer; clear) s ≡ (ok tt, emptied table s.last_store_timestamp s)
unfolding store answered clear
store-emptied table answer s inserts rows = simp (
  sql_of-insert_rows table s.ost_perf_result_list,
  inserts s.ost_perf_result_list rows,
  same_length s.ost_perf_result_list,
)

store_if_due-Keeps :
    (c : ProxyConfig) (r : ProxyRound) (s : ProxyState)
    → 0 < c.store_max_count
    → Inserts c.table r.answer
    → AreRows s.ost_perf_result_list
    → Keeps c s [] (store_if_due c r s)
unfolding store_if_due store_all store answered clear
store_if_due-Keeps c r s positive inserts rows = elim (Bool-cases (is_due c r s)) [
  | inl due ↦
      simp
        (
          due,
          sql_of-insert_rows c.table s.ost_perf_result_list,
          inserts s.ost_perf_result_list rows,
          same_length s.ost_perf_result_list,
        )
        (refl, stored-all c.table r.store_time s, positive)
  | inr n ↦ simp n (
    refl,
    stored-nothing c.table s rows,
    not_due s.ost_perf_result_list
        (leb (s.last_store_timestamp + c.store_timeout) r.last_exec_timestamp) c.store_max_count
        positive n,
  )
]

round-Keeps :
    (c : ProxyConfig) (r : ProxyRound) (s : ProxyState)
    → 0 < c.store_max_count
    → AreRows s.ost_perf_result_list
    → IsFine c.table r
    → Keeps c s (received_of r.recv_data) (round c r s)
unfolding round receive insert
round-Keeps c r s positive rows fine = go r.recv_data fine.1 fine.2
  where
    with_record : Text → ProxyState
    with_record data_text = record s {
      ost_perf_result_list = s.ost_perf_result_list ++ data_text ∷ [];
    }

    recorded :
        (data_text : Text)
        → AreRows (data_text ∷ [])
        → HasStored c.table s (with_record data_text) (data_text ∷ [])
    recorded data_text clean = record {
      batches = [];
      executed = sym (append-nil s.statements);
      kept = refl;
      rows = All-append s.ost_perf_result_list (data_text ∷ []) rows clean;
    }

    go :
        (data_text : Option Text)
        → data_text ≢ some []
        → AreRows (received_of data_text)
        → Keeps c s (received_of data_text) ((do receive data_text; store_if_due c r) s)
    go none set clean = store_if_due-Keeps c r s positive fine.0 rows
    go (some []) set clean = absurd (set refl)
    go (some (ch ∷ text)) set clean =
        let first = recorded (ch ∷ text) clean in
        let (e, stored, few) =
          store_if_due-Keeps c r (with_record (ch ∷ text)) positive fine.0 first.rows in
        (e, stored-then c.table s (with_record (ch ∷ text)) _ _ [] first stored, few)

run-cons :
    (c : ProxyConfig) (r : ProxyRound) (rs : List ProxyRound) (s t : ProxyState)
    → round c r s ≡ (ok tt, t)
    → run c (r ∷ rs) s ≡ run c rs t
unfolding run
run-cons c r rs s t h = rw h refl

-- While the database inserts the rows of each statement and counts them, and no received record is empty or holds
-- a closing bracket, the loop raises nothing, and no record is lost, doubled or moved: the statements that it executes are
-- `INSERT INTO` the table with the rows of some batches of records, these batches and the waiting records are together
-- the records that waited before and the received ones, in order, and fewer than the maximum wait at the end.
pub run-keeps_records :
    (c : ProxyConfig) (rs : List ProxyRound) (s : ProxyState)
    → length s.ost_perf_result_list < c.store_max_count
    → AreRows s.ost_perf_result_list
    → All (IsFine c.table) rs
    → (t : ProxyState) × (run c rs s ≡ (ok tt, t))
      × HasStored c.table s t (received rs)
      × (length t.ost_perf_result_list < c.store_max_count)
unfolding run
run-keeps_records c [] s few rows fine = (s, refl, stored-nothing c.table s rows, few)
run-keeps_records c (r ∷ rs) s few rows fine =
    let t = (round c r s).1 in
    let (e, stored, still_few) = round-Keeps c r s (omega (arith, few)) rows fine.0 in
    let (u, e', stored', few') = run-keeps_records c rs t still_few stored.rows fine.1 in
    (
      u,
      run-cons c r rs s t (ap (λ x. (x, t)) e) ∙ e',
      stored-then c.table s t u (received_of r.recv_data) (received rs) stored stored',
      few',
    )

is_nil-nil : (xs : List Text) → is_nil xs ≡ true → xs ≡ []
is_nil-nil [] h = refl
is_nil-nil (x ∷ xs) h = cc h

finish-stores :
    (c : ProxyConfig) (answer : Text → Answer) (s : ProxyState)
    → Inserts c.table answer
    → AreRows s.ost_perf_result_list
    → (t : ProxyState) × (finish c answer s ≡ (ok tt, t))
      × HasStored c.table s t []
      × (t.ost_perf_result_list ≡ [])
unfolding finish
finish-stores c answer s inserts rows = elim (Bool-cases (is_nil s.ost_perf_result_list)) [
  | inl none_left ↦ (
    s,
    rw none_left refl,
    stored-nothing c.table s rows,
    is_nil-nil s.ost_perf_result_list none_left,
  )
  | inr some_left ↦ (
    emptied c.table s.last_store_timestamp s,
    rw some_left (store-emptied c.table answer s inserts rows),
    stored-all c.table s.last_store_timestamp s,
    refl,
  )
]

-- While the database inserts the rows of each statement and counts them, and no received record is empty or holds
-- a closing bracket, the proxy raises nothing, none waits at its end, and the statements that it has executed are
-- `INSERT INTO` the table with the rows of batches that hold exactly the records that waited before and the received ones,
-- in order.
pub main-stores :
    (c : ProxyConfig) (rs : List ProxyRound) (answer : Text → Answer) (s : ProxyState)
    → length s.ost_perf_result_list < c.store_max_count
    → AreRows s.ost_perf_result_list
    → All (IsFine c.table) rs
    → Inserts c.table answer
    → (t : ProxyState) × (main c rs answer s ≡ (ok tt, t))
      × (t.ost_perf_result_list ≡ [])
      × ((batches : List (List Text)) × (t.statements
            ≡ s.statements ++ map (insert_rows c.table) batches)
          × (concat batches ≡ s.ost_perf_result_list ++ received rs))
unfolding main
main-stores c rs answer s few rows fine inserts =
    let (t, e, stored, _) = run-keeps_records c rs s few rows fine in
    let (u, e', stored', empty) = finish-stores c answer t inserts stored.rows in
    let all = stored-then c.table s t u (received rs) [] stored stored' in
    (
      u,
      rw e e',
      empty,
      (
        all.batches,
        all.executed,
        sym (append-nil (concat all.batches))
            ∙ ap (λ x. concat all.batches ++ x) (sym empty)
            ∙ all.kept
            ∙ ap (λ x. s.ost_perf_result_list ++ x) (append-nil (received rs)),
      ),
    )
