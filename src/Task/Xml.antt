-- ===== src/Task/Xml.antt =====
-- task/xml/task_xml_reader.py, on the tree that `ElementTree` parses a file to.
pub mod Loop
pub mod Unique
use cyclone_distributed_task.Prelude.{
  ◌==◌, text_eq, not, true, false, Bool, Option, none, some, List, [], ◌∷◌, Text, codes, is_nil,
  if◌then◌else◌,
}
use cyclone_distributed_task.Py.Result.{
  Result, ok, err, runtime_error, key_error, io_error, task_xml_reader_error, ◌>>=◌, ◌>>◌, raise_if,
}
use cyclone_distributed_task.Py.Dict.{Dict, get, put, item}
use cyclone_distributed_task.Py.Str.{contains}
use cyclone_distributed_task.Task.Factory.{TaskXmlInfo}

-- An element: its tag, its attributes, its text and its children
mutual
  pub data Element : Type 0 where
    element : Text → Dict Text Text → Option Text → Elements → Element

  pub data Elements : Type 0 where
    nil : Elements
    cons : Element → Elements → Elements

abbrev pub tag : Element → Text
tag (element t attrib text children) = t

abbrev pub attrib : Element → Dict Text Text
attrib (element t a text children) = a

abbrev pub text : Element → Option Text
text (element t a s children) = s

abbrev pub to_list : Elements → List Element
to_list nil = []
to_list (cons e es) = e ∷ to_list es

abbrev pub children : Element → List Element
children (element t a s es) = to_list es

-- `child.find(name)`: the first child with a tag
unfoldable pub find_tag : Text → List Element → Option Element
find_tag name [] = none
find_tag name (e ∷ es) = if tag e == name then some e else find_tag name es

or_raise : {A : Type 0} → Option A → Result A
or_raise none = err runtime_error
or_raise (some a) = ok a

-- `if not property_item.text: property_item.text = str("")`
abbrev text_or_blank : Option Text → Text
text_or_blank none = []
text_or_blank (some s) = s

-- `for property_item in property_def: …`
unfoldable pub read_properties : List Element → Dict Text Text → Dict Text Text
unfolding put
read_properties [] class_properties = class_properties
read_properties (e ∷ es) class_properties =
    read_properties es (put (tag e) (text_or_blank (text e)) class_properties)

-- The class and the properties of a task element
unfoldable pub define_task : Element → Result TaskXmlInfo
unfolding find_tag or_raise read_properties contains get
define_task child = do
  class_def ← or_raise (find_tag (codes "class") (children child))
  class_module ← or_raise (get (codes "module") (attrib class_def))
  raise_if (not (contains (codes "task.") class_module)) runtime_error
  class_name ← or_raise (get (codes "name") (attrib class_def))
  ok (record {
    class_module = class_module;
    class_name = class_name;
    class_properties = elim (find_tag (codes "property") (children child)) [
      | none ↦ []
      | some property_def ↦ read_properties (children property_def) []
    ];
  })

-- What the loop does with an element of the sought name
unfoldable pub define_once : Option TaskXmlInfo → Element → Result (Option TaskXmlInfo)
define_once (some info) child = err runtime_error
define_once none child = do info ← define_task child; ok (some info)

-- One round of `for child in root`, beside what has been found
unfoldable pub read_child : Text → Option TaskXmlInfo → Element → Result (Option TaskXmlInfo)
unfolding define_once get
read_child task_name found child = do
  raise_if (not (tag child == codes "task")) runtime_error
  name ← item (codes "name") (attrib child)
  (if name == task_name then define_once found child else ok found)

unfoldable pub read_children :
    Text → Option TaskXmlInfo → List Element → Result (Option TaskXmlInfo)
unfolding read_child
read_children task_name found [] = ok found
read_children task_name found (child ∷ rest) = do
  after ← read_child task_name found child
  read_children task_name after rest

-- The body of the `try`
unfoldable pub read_root : Text → Element → Result TaskXmlInfo
unfolding read_children or_raise
read_root task_name root = do
  raise_if (not (tag root == codes "tasks")) runtime_error
  raise_if (is_nil (children root)) runtime_error
  found ← read_children task_name none (children root)
  or_raise found

-- `except Exception as err: raise TaskXmlReaderError(…)`
abbrev pub reader_error {ℓ} : {A : Type ℓ} → Result A → Result A
reader_error (ok a) = ok a
reader_error (err e) = err task_xml_reader_error

-- `read_task_definition`; `parsed` is what parsing the file gives.
unfoldable pub read_task_definition :
    (isfile : Bool) (parsed : Result Element) → Text → Result TaskXmlInfo
unfolding read_root
read_task_definition isfile parsed task_name =
    if isfile then reader_error (parsed >>= read_root task_name) else err io_error
