-- ===== src/Task/Xml/Unique.antt =====
-- What the XML reader finds: the definition of the only task with a name.
use cyclone_distributed_task.Prelude.{
  ◌==◌, text_eq, true, false, Bool, Option, none, some, List, [], ◌∷◌, Text, codes, if◌then◌else◌,
  ◌≡◌, Bool-cases, inr, inl, refl, ◌&&◌, ◌∙◌, ap, is_nil,
}
use cyclone_distributed_task.Py.Result.{
  ◌>>◌, ◌>>=◌, Result, err, task_xml_reader_error, ok, io_error, raise_if, runtime_error,
}
use cyclone_distributed_task.Task.Factory.{TaskXmlInfo}
use cyclone_distributed_task.Task.Xml.{
  Element, tag, define_task, reader_error, define_once, read_children, children, or_raise,
  read_root, read_task_definition,
}
use cyclone_distributed_task.Task.Xml.Loop.{all_named, tasks_named, found_in, read_children-none}

-- The definition by the only element of a list
abbrev pub only_definition : List Element → Result TaskXmlInfo
only_definition (e ∷ []) = reader_error (define_task e)
only_definition _ = err task_xml_reader_error

last : Result (Option TaskXmlInfo) → Result TaskXmlInfo
last (ok (some info)) = ok info
last _ = err task_xml_reader_error

or_raise-last :
    (r : Result (Option TaskXmlInfo)) → reader_error (r >>= or_raise) ≡ last (reader_error r)
unfolding or_raise last
or_raise-last (ok none) = refl
or_raise-last (ok (some info)) = refl
or_raise-last (err x) = refl

last-found : (named : List Element) → last (found_in named) ≡ only_definition named
unfolding last found_in define_once
last-found [] = refl
last-found (e ∷ []) = go (define_task e) refl
  where
    go :
        (r : Result TaskXmlInfo)
        → define_task e ≡ r
        → last (reader_error (define_once none e)) ≡ reader_error (define_task e)
    go (ok info) d = simp d
    go (err x) d = simp d
last-found (e ∷ f ∷ rest) = refl

last-if :
    (b : Bool) (named : List Element)
    → last (if b then found_in named else err task_xml_reader_error)
      ≡ (if b then only_definition named else err task_xml_reader_error)
last-if true named = last-found named
last-if false named = unfold last in refl

-- The reader without its loop
abbrev pub described : Result Element → Text → Result TaskXmlInfo
described (err e) name = err task_xml_reader_error
described (ok root) name =
    if tag root == codes "tasks" && all_named (children root)
    then only_definition (tasks_named name (children root))
    else err task_xml_reader_error

read_root-described :
    (root : Element) (name : Text) → reader_error (read_root name root) ≡ described (ok root) name
unfolding read_root
read_root-described root name = elim (Bool-cases (tag root == codes "tasks")) [
  | inr other ↦ simp other
  | inl tasks ↦ simp tasks (go (children root))
]
  where
    go :
        (es : List Element)
        → reader_error
            (raise_if (is_nil es) runtime_error >> (read_children name none es >>= or_raise))
          ≡ (if all_named es
              then only_definition (tasks_named name es)
              else err task_xml_reader_error)
    go [] = refl
    go (e ∷ es) =
        or_raise-last (read_children name none (e ∷ es))
        ∙ ap last (read_children-none name (e ∷ es))
        ∙ last-if (all_named (e ∷ es)) (tasks_named name (e ∷ es))

-- The reader refuses a path without a file by an IO error. For any other input it gives the definition by the only
-- task with the name if the root is "tasks" and every child is a task with a name, and the reader's own error in
-- each other case: no such task, two of them, a child that is no task or has no name, a definition that is refused,
-- and a file that cannot be parsed.
pub read_task_definition-described :
    (isfile : Bool) (parsed : Result Element) (name : Text)
    → read_task_definition isfile parsed name
      ≡ (if isfile then described parsed name else err io_error)
unfolding read_task_definition
read_task_definition-described false parsed name = refl
read_task_definition-described true (err e) name = refl
read_task_definition-described true (ok root) name = read_root-described root name
