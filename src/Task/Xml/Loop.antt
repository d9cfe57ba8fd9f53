-- ===== src/Task/Xml/Loop.antt =====
-- The loop of the XML reader over the children of the root.
use cyclone_distributed_task.Prelude.{
  ◌==◌, text_eq, true, false, Bool, Option, none, some, List, [], ◌∷◌, Text, codes, if◌then◌else◌,
  ◌≡◌, Bool-cases, inr, inl, refl, ◌&&◌, ◌∙◌, ap, is_nil,
}
use cyclone_distributed_task.Py.Result.{
  ◌>>=◌, Result, err, task_xml_reader_error, ok, key_error, Error,
}
use cyclone_distributed_task.Py.Dict.{get}
use cyclone_distributed_task.Task.Factory.{TaskXmlInfo}
use cyclone_distributed_task.Task.Xml.{
  Element, tag, attrib, define_task, reader_error, define_once, read_child, read_children,
}

-- The name of an element, if it is a task with one
unfoldable pub task_name_of : Element → Option Text
task_name_of e = if tag e == codes "task" then get (codes "name") (attrib e) else none

-- Every element is a task with a name.
abbrev pub all_named : List Element → Bool
all_named [] = true
all_named (e ∷ es) = elim (task_name_of e) [ none ↦ false | some _ ↦ all_named es ]

-- The elements with a name
abbrev pub tasks_named : Text → List Element → List Element
tasks_named name [] = []
tasks_named name (e ∷ es) =
    let rest = tasks_named name es in
    elim (task_name_of e) [ none ↦ rest | some n ↦ if n == name then e ∷ rest else rest ]

-- What a round makes of the name of its element
expected_child : Text → Option TaskXmlInfo → Element → Option Text → Result (Option TaskXmlInfo)
expected_child name found e none = err task_xml_reader_error
expected_child name found e (some n) =
    reader_error (if n == name then define_once found e else ok found)

by_name :
    (name : Text) (found : Option TaskXmlInfo) (e : Element) (n : Option Text)
    → reader_error (
        elim n [ none ↦ err key_error | some v ↦ ok v ] >>= λ v.
        if v == name then define_once found e else ok found)
      ≡ expected_child name found e n
unfolding expected_child
by_name name found e none = refl
by_name name found e (some n) = refl

read_child-name :
    (name : Text) (found : Option TaskXmlInfo) (e : Element)
    → reader_error (read_child name found e) ≡ expected_child name found e (task_name_of e)
unfolding read_child expected_child task_name_of
read_child-name name found e = elim (Bool-cases (tag e == codes "task")) [
  | inr other ↦ rw (read_child, other) refl
  | inl is_task ↦ rw (read_child, is_task) (by_name name found e (get (codes "name") (attrib e)))
]

then_children : Text → List Element → Result (Option TaskXmlInfo) → Result (Option TaskXmlInfo)
then_children name es (err x) = err task_xml_reader_error
then_children name es (ok found) = reader_error (read_children name found es)

then_children_bind :
    (name : Text) (es : List Element) (r : Result (Option TaskXmlInfo))
    → reader_error (r >>= λ found. read_children name found es)
      ≡ then_children name es (reader_error r)
unfolding then_children
then_children_bind name es (ok found) = refl
then_children_bind name es (err x) = refl

-- One round, by the name of its element
read_children-cons :
    (name : Text) (found : Option TaskXmlInfo) (e : Element) (es : List Element)
    → reader_error (read_children name found (e ∷ es))
      ≡ then_children name es (expected_child name found e (task_name_of e))
unfolding read_children
read_children-cons name found e es =
    then_children_bind name es (read_child name found e)
    ∙ ap (then_children name es) (read_child-name name found e)

never_both :
    {A : Type 0} (b : Bool) (r : Result A)
    → err task_xml_reader_error ≡ (if b && false then r else err task_xml_reader_error)
never_both true r = refl
never_both false r = refl

-- After the definition has been read, another one of the name is an error.
read_children-found :
    (name : Text) (info : TaskXmlInfo) (es : List Element)
    → reader_error (read_children name (some info) es) ≡ (
        if all_named es && is_nil (tasks_named name es)
        then ok (some info)
        else err task_xml_reader_error)
read_children-found name info [] = unfold read_children in refl
read_children-found name info (e ∷ es) =
    read_children-cons name (some info) e es
    ∙ go (read_children-found name info es) (task_name_of e) refl
  where
    go :
        (reader_error (read_children name (some info) es) ≡ (
          if all_named es && is_nil (tasks_named name es)
          then ok (some info)
          else err task_xml_reader_error))
        → (n : Option Text) → task_name_of e ≡ n
        → then_children name es (expected_child name (some info) e (task_name_of e)) ≡ (
            if all_named (e ∷ es) && is_nil (tasks_named name (e ∷ es))
            then ok (some info)
            else err task_xml_reader_error)
    go rest none unnamed = unfold then_children expected_child in rw (unnamed, all_named) refl
    go rest (some n) named = elim (Bool-cases (n == name)) [
      | inl same ↦
          unfold then_children expected_child define_once in
          rw (all_named, tasks_named, named, same) (never_both (all_named es) (ok (some info)))
      | inr other ↦
          unfold then_children expected_child in rw (all_named, tasks_named, named, other) rest
    ]

-- What has been found at the end, for the elements with the name
unfoldable pub found_in : List Element → Result (Option TaskXmlInfo)
found_in [] = ok none
found_in (e ∷ []) = reader_error (define_once none e)
found_in (e ∷ f ∷ rest) = err task_xml_reader_error

-- What follows the first definition, or the exception that it raises
after_definition :
    (name : Text) (e : Element) (es : List Element)
    → then_children name es (reader_error (define_once none e))
      ≡ (if all_named es then found_in (e ∷ tasks_named name es) else err task_xml_reader_error)
unfolding define_once found_in then_children
after_definition name e es = go (define_task e) refl
  where
    finish :
        (b : Bool) (info : TaskXmlInfo) (named : List Element)
        → define_task e ≡ ok info
        → (if b && is_nil named then ok (some info) else err task_xml_reader_error)
          ≡ (if b then found_in (e ∷ named) else err task_xml_reader_error)
    finish true info [] d = simp d
    finish true info (f ∷ rest) d = refl
    finish false info named d = refl

    failing :
        (b : Bool) (x : Error) (named : List Element)
        → define_task e ≡ err x
        → err task_xml_reader_error
          ≡ (if b then found_in (e ∷ named) else err task_xml_reader_error)
    failing true x [] d = simp d
    failing true x (f ∷ rest) d = refl
    failing false x named d = refl

    go :
        (r : Result TaskXmlInfo)
        → define_task e ≡ r
        → then_children name es (reader_error (define_once none e))
          ≡ (if all_named es then found_in (e ∷ tasks_named name es) else err task_xml_reader_error)
    go (ok info) d =
        simp d
          (read_children-found name info es ∙ finish (all_named es) info (tasks_named name es) d)
    go (err x) d = simp d (failing (all_named es) x (tasks_named name es) d)

pub read_children-none :
    (name : Text) (es : List Element)
    → reader_error (read_children name none es)
      ≡ (if all_named es then found_in (tasks_named name es) else err task_xml_reader_error)
read_children-none name [] = unfold read_children found_in in refl
read_children-none name (e ∷ es) =
    read_children-cons name none e es ∙ go (read_children-none name es) (task_name_of e) refl
  where
    go :
        (reader_error (read_children name none es)
          ≡ (if all_named es then found_in (tasks_named name es) else err task_xml_reader_error))
        → (n : Option Text) → task_name_of e ≡ n
        → then_children name es (expected_child name none e (task_name_of e)) ≡ (
            if all_named (e ∷ es)
            then found_in (tasks_named name (e ∷ es))
            else err task_xml_reader_error)
    go rest none unnamed = unfold then_children expected_child in rw (unnamed, all_named) refl
    go rest (some n) named = elim (Bool-cases (n == name)) [
      | inl same ↦
          unfold expected_child in
          rw (all_named, tasks_named, named, same) (after_definition name e es)
      | inr other ↦
          unfold then_children expected_child in rw (all_named, tasks_named, named, other) rest
    ]
