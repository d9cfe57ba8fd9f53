-- ===== src/Generator/Migration/Loading.antt =====
-- What the loading of an input file in task/generator/lustre_ost_migration_task_generator.py adds to
-- the caches.
use cyclone_distributed_task.Prelude.{
  ℕ, suc, ◌+◌, ◌≡◌, refl, none, some, List, [], ◌∷◌, ◌++◌, Option, Text, ℤ, int_eq, ◌==◌, arith,
  Bool-cases, inl, inr, if◌then◌else◌, length, append-nil, append_assoc, sym, Option-cases, ◌∙◌, ap,
  eq_iff,
}
use cyclone_distributed_task.Py.Dict.{get, get-put}
use cyclone_distributed_task.Generator.Migration.State.{LustreOstMigrateItem}
use cyclone_distributed_task.Generator.Migration.Files.{
  Caches, cache_of, append_item, parse_line, load_lines, or_empty,
}

-- The items of the lines that name this OST, in the order of the lines
unfoldable pub items_of : Text → ℤ → List (Option Text) → List LustreOstMigrateItem
items_of lfs_path ost [] = []
items_of lfs_path ost (raw_line ∷ rest) = elim (parse_line lfs_path raw_line) [
  | none ↦ items_of lfs_path ost rest
  | some item ↦
      let items = items_of lfs_path ost rest in if item.ost == ost then item ∷ items else items
]

cache_of-append_item :
    (ost : ℤ) (item : LustreOstMigrateItem) (d : Caches)
    → cache_of ost (append_item item d)
      ≡ (if item.ost == ost then cache_of ost d ++ item ∷ [] else cache_of ost d)
unfolding append_item
cache_of-append_item ost item d =
    ap or_empty (get-put item.ost ost (cache_of item.ost d ++ item ∷ []) d) ∙ at_ost
  where
    at_ost :
        or_empty (if item.ost == ost then some (cache_of item.ost d ++ item ∷ []) else get ost d)
        ≡ (if item.ost == ost then cache_of ost d ++ item ∷ [] else cache_of ost d)
    at_ost = elim (Bool-cases (item.ost == ost)) [
      | inl y ↦ rw y (ap (λ k. cache_of k d ++ item ∷ []) ((eq_iff item.ost ost).0 y))
      | inr n ↦ rw n refl
    ]

append_one :
    (ost : ℤ) (item : LustreOstMigrateItem) (d : Caches) (items : List LustreOstMigrateItem)
    → cache_of ost (append_item item d) ++ items
      ≡ cache_of ost d ++ (if item.ost == ost then item ∷ items else items)
append_one ost item d items = elim (Bool-cases (item.ost == ost)) [
  | inl y ↦
      rw (cache_of-append_item ost item d, y) (append_assoc (cache_of ost d) (item ∷ []) items)
  | inr n ↦ rw (cache_of-append_item ost item d, n) refl
]

-- Loading lines appends to the cache of each OST the items of the lines that name it, in their
-- order, and each line counts either as loaded or as an error.
pub load_lines-appends :
    (lfs_path : Text) (lines : List (Option Text)) (d : Caches) (loaded errors : ℕ) (ost : ℤ)
    → let r = load_lines lfs_path lines (d, loaded, errors) in
      (cache_of ost r.0 ≡ cache_of ost d ++ items_of lfs_path ost lines)
      × (r.1 + r.2 ≡ loaded + errors + length lines)
unfolding load_lines items_of
load_lines-appends lfs_path [] d loaded errors ost = (sym (append-nil _), omega arith)
load_lines-appends lfs_path (raw_line ∷ rest) d loaded errors ost =
    elim (Option-cases (parse_line lfs_path raw_line)) [
      | inl e ↦
          let (a, b) = load_lines-appends lfs_path rest d loaded (suc errors) ost in
          rw (load_lines, items_of, e) (a, omega (arith, b))
      | inr (item, e) ↦
          let (a, b) =
            load_lines-appends lfs_path rest (append_item item d) (suc loaded) errors ost in
          rw (load_lines, items_of, e)
            (a ∙ append_one ost item d (items_of lfs_path ost rest), omega (arith, b))
    ]
