-- ===== src/Generator/Migration/Files.antt =====
-- task/generator/lustre_ost_migration_task_generator.py: the loading of input files. A line that
-- Python cannot decode is `none`. The path of the file system stands in the regex as written, and
-- is taken to hold no character that is special there; of the digits that `\d` accepts, the ASCII
-- ones are modelled.
use cyclone_distributed_task.Prelude.{
  ℕ, Bool, Option, none, some, List, [], ◌∷◌, ◌++◌, Text, ℤ, int_eq, codes, if◌then◌else◌, leb, suc,
  is_nil, nat_beq, ◌&&◌,
}
use cyclone_distributed_task.Py.Result.{Result, ok, err}
use cyclone_distributed_task.Py.Exec.{◌>>=◌, lift, pure, modify, ◌>>◌}
use cyclone_distributed_task.Py.Dict.{Dict, get, put}
use cyclone_distributed_task.Py.Str.{starts_with, contains, ends_with}
use cyclone_distributed_task.Py.Int
use cyclone_distributed_task.Generator.Migration.State.{LustreOstMigrateItem, Settings}
use cyclone_distributed_task.Generator.Migration.Ost.{Handler, allocate_ost_caches, for_each}
use cyclone_distributed_task.Msg.Message.{field_separator}

abbrev is_digit : ℕ → Bool
is_digit c = leb b'0' c && leb c b'9'

-- `(\d+)` and the text behind it
abbrev pub span_digits : Text → Text × Text
span_digits [] = ([], [])
span_digits (c ∷ s) =
    let (digits, rest) = span_digits s in if is_digit c then (c ∷ digits, rest) else ([], c ∷ s)

-- `(.*)$`: a newline stands at the end alone, and is left out.
abbrev pub cut_newline : Text → Option Text
cut_newline [] = some []
cut_newline (c ∷ []) = if nat_beq c 10 then some [] else some (c ∷ [])
cut_newline (c ∷ d ∷ s) =
    let rest = cut_newline (d ∷ s) in
    if nat_beq c 10 then none else elim rest [ none ↦ none | some t ↦ some (c ∷ t) ]

match_filename : Text → Text → Text → Option (ℤ × Text)
match_filename lfs_path [] rest = none
match_filename lfs_path (d ∷ digits) [] = none
match_filename lfs_path (d ∷ digits) (c ∷ rest) =
    if nat_beq c b' ' && starts_with lfs_path rest
    then elim (Int.parse (d ∷ digits)) [
      | err e ↦ none
      | ok ost ↦ elim (cut_newline rest) [ none ↦ none | some filename ↦ some (ost, filename) ]
    ]
    else none

-- `self.pattern.search(line)`, and the two groups
unfoldable pub search_pattern : Text → Text → Option (ℤ × Text)
unfolding match_filename
search_pattern lfs_path line =
    let (digits, rest) = span_digits line in match_filename lfs_path digits rest

-- The item of a line, or the exception that the loop counts
unfoldable pub parse_line : Text → Option Text → Option LustreOstMigrateItem
parse_line lfs_path none = none
parse_line lfs_path (some line) =
    if contains (field_separator ∷ []) line then none else elim (search_pattern lfs_path line) [
      | none ↦ none
      | some (ost, filename) ↦ some (record { ost = ost; filename = filename })
    ]

abbrev pub Caches : Type 0
Caches = Dict ℤ (List LustreOstMigrateItem)

abbrev pub or_empty : Option (List LustreOstMigrateItem) → List LustreOstMigrateItem
or_empty none = []
or_empty (some cache) = cache

-- `self.ost_cache_dict[ost]`, made empty before if it is not there
abbrev pub cache_of : ℤ → Caches → List LustreOstMigrateItem
cache_of ost d = or_empty (get ost d)

unfoldable pub append_item : LustreOstMigrateItem → Caches → Caches
append_item item d = put item.ost (cache_of item.ost d ++ item ∷ []) d

-- The loop over the lines, beside `loaded_counter` and `error_counter`
unfoldable pub load_lines : Text → List (Option Text) → Caches × ℕ × ℕ → Caches × ℕ × ℕ
load_lines lfs_path [] (d, loaded, errors) = (d, loaded, errors)
load_lines lfs_path (raw_line ∷ rest) (d, loaded, errors) = elim (parse_line lfs_path raw_line) [
  | none ↦ load_lines lfs_path rest (d, loaded, suc errors)
  | some item ↦ load_lines lfs_path rest (append_item item d, suc loaded, errors)
]

-- A file of the input directory: its lines up to a failure of the reading, if there is one, which
-- is only logged
pub record InputFile : Type 0 where
  pub name : Text
  pub lines : List (Option Text)
  pub renames : Result (Unit {0})

-- `_load_input_file`
unfoldable pub load_input_file : Settings → InputFile → Handler (Unit {0})
load_input_file c file = modify (λ s. record s {
  ost_cache_dict = (load_lines c.lfs_path file.lines (s.ost_cache_dict, 0, 0)).0;
})

unfoldable pub input_files : List InputFile → List InputFile
input_files [] = []
input_files (file ∷ files) =
    let rest = input_files files in
    if ends_with (codes ".input") file.name then file ∷ rest else rest

-- The file is renamed behind its loading.
unfoldable pub load_and_rename : Settings → InputFile → Handler (Unit {0})
load_and_rename c file = do load_input_file c file; lift file.renames

-- `_process_input_files`, on what `os.listdir` gives
unfoldable pub process_input_files : Settings → Result (List InputFile) → Handler (Unit {0})
unfolding input_files load_and_rename
process_input_files c listing = do
  files ← lift listing
  for_each (load_and_rename c) (input_files files)
  if is_nil (input_files files) then pure tt else allocate_ost_caches c
