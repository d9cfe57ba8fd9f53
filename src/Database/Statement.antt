-- ===== src/Database/Statement.antt =====
-- The statement that `store` of db/ost_perf_history_table_handler.py builds.
use cyclone_distributed_task.Prelude.{
  append-nil, ◌≡◌, refl, sym, ap, ◌∙◌, List, [], ◌∷◌, ◌++◌, Text, codes, map, append_assoc, length,
  All,
}
use cyclone_distributed_task.Py.Str.{join, Lacks}
use cyclone_distributed_task.Database.{Answer, row_count, insert_into, append_rows, sql_of}

-- A row of values
abbrev pub in_brackets : Text → Text
in_brackets row = codes "(" ++ row ++ codes ")"

-- The statement that inserts the rows: their values in brackets, with commas between them
abbrev pub insert_rows : Text → List Text → Text
insert_rows table rows = insert_into table ++ join b',' (map in_brackets rows)

append_rows-join :
    (sql row : Text) (rest : List Text)
    → append_rows (sql ++ in_brackets row) rest ≡ sql ++ join b',' (map in_brackets (row ∷ rest))
unfolding append_rows join
append_rows-join sql row [] = refl
append_rows-join sql row (next ∷ rest) =
    ap (λ text. append_rows text rest) (regroup sql (in_brackets row) (in_brackets next))
    ∙ append_rows-join (sql ++ (in_brackets row ++ codes ",")) next rest
    ∙ regroup' sql (in_brackets row) _
  where
    regroup : (a b c : Text) → (a ++ b) ++ (codes "," ++ c) ≡ (a ++ (b ++ codes ",")) ++ c
    regroup a b c =
        sym (append_assoc (a ++ b) (codes ",") c) ∙ ap (λ x. x ++ c) (append_assoc a b (codes ","))

    regroup' : (a b c : Text) → (a ++ (b ++ codes ",")) ++ c ≡ a ++ (b ++ (b',' ∷ c))
    regroup' a b c =
        append_assoc a (b ++ codes ",") c ∙ ap (λ x. a ++ x) (append_assoc b (codes ",") c)

pub sql_of-insert_rows :
    (table : Text) (rows : List Text) → sql_of table rows ≡ insert_rows table rows
unfolding sql_of join
sql_of-insert_rows table [] = sym (append-nil (insert_into table))
sql_of-insert_rows table (row ∷ rest) = append_rows-join (insert_into table) row rest

-- No record holds a closing bracket, which would end its row.
abbrev pub AreRows : List Text → Type 0
AreRows rows = All (Lacks b')') rows

-- The database inserts each row of a statement and counts them.
abbrev pub Inserts : Text → (Text → Answer) → Type 0
Inserts table answer =
    (rows : List Text) → AreRows rows → answer (insert_rows table rows) ≡ row_count (length rows)
