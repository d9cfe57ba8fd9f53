-- ===== src/Msg/TaskTransfer.antt =====
-- A task that the master assigns is rebuilt by the controller (msg/task_assign.py,
-- msg/message_factory.py, task/task_factory.py).
use cyclone_distributed_task.Prelude.{
  ℕ, ◌≡◌, refl, true, false, Option, none, some, [], ◌∷◌, arith, Text, length, ltb, List, codes,
  ◌≢◌, All, ◌≤◌, ◌⊎◌, ◌∙◌, ap, take-length, inl, inr,
}
use cyclone_distributed_task.Py.Result.{ok, Result, raise_if, runtime_error, ◌>>=◌}
use cyclone_distributed_task.Py.Str.{split, join, Lacks, split-join, contains}
use cyclone_distributed_task.Msg.Message.{
  Message, task_assign, field_separator, task_ass, to_string, is_unset, type_of,
}
use cyclone_distributed_task.Msg.TaskAssign.{
  header_of, create_body, create_header, from_task, argument_texts, is_inherited_from_base_task,
  to_task,
}
use cyclone_distributed_task.Msg.Factory.{create}
use cyclone_distributed_task.Task.Object.{TaskClass, Task, instantiate}
use cyclone_distributed_task.Task.Factory.{create_from_message, body_items_of, create_task}
use cyclone_distributed_task.Msg.AssignText.{
  assign_of, split-header, create-assign_body, create-assign_none, type_of-assign,
}

-- What makes a task fit for transfer: its class is found under its names and derives from
-- `BaseTask` within the task package, its id is set, neither names nor arguments hold a separator,
-- the factory takes their number, and the arguments, if there are any, are not one empty text.
pub record IsTransferable (import_class : Text → Text → Result TaskClass) (task : Task) (tid : Text)
    (self : Text) (args texts : List Text) : Type 0 where
  pub found : import_class task.class.class_module task.class.class_name ≡ ok task.class
  pub inherits : is_inherited_from_base_task task.class.first_bases ≡ true
  pub in_package : contains (codes "task.") task.class.class_module ≡ true
  pub has_tid : task.tid ≡ some tid
  pub tid_set : tid ≢ []
  pub module_lacks : Lacks field_separator task.class.class_module
  pub class_lacks : Lacks field_separator task.class.class_name
  pub tid_lacks : Lacks field_separator tid
  pub has_args : task.class.init_args ≡ self ∷ args
  pub has_texts : argument_texts task args ≡ ok texts
  pub texts_lack : All (Lacks field_separator) texts
  pub few : length texts ≤ 15
  pub not_blank : (args ≡ []) ⊎ (join field_separator texts ≢ [])

ltb-of_le : (n : ℕ) → n ≤ 15 → ltb 15 n ≡ false
ltb-of_le n h = ground arith

create_task-few :
    (class : TaskClass) (texts : List Text)
    → length texts ≤ 15
    → create_task class texts (length texts) ≡ instantiate class texts
create_task-few class texts few =
    unfold create_task in rw (ltb-of_le (length texts) few, take-length texts)

module _ (import_class : Text → Text → Result TaskClass) (task : Task) (tid self : Text) where
  create_header-eq :
      contains (codes "task.") task.class.class_module ≡ true
      → task.tid ≡ some tid
      → tid ≢ []
      → create_header task
        ≡ ok (header_of task_ass task.class.class_module task.class.class_name tid)
  unfolding create_header
  create_header-eq p e n = rw (p, e) (go tid n)
    where
      go :
          (t : Text)
          → t ≢ []
          → (raise_if (is_unset (some t)) runtime_error >>= λ _.
              ok (header_of task_ass task.class.class_module task.class.class_name t))
            ≡ ok (header_of task_ass task.class.class_module task.class.class_name t)
      go [] n = absurd (n refl)
      go (x ∷ t) n = refl

  create_body-eq :
      (arg : Text) (args texts : List Text)
      → task.class.init_args ≡ self ∷ arg ∷ args
      → argument_texts task (arg ∷ args) ≡ ok texts
      → create_body task ≡ ok (some (join field_separator texts))
  unfolding create_body
  create_body-eq arg args texts e h = rw (e, h)

  create_body-nil : task.class.init_args ≡ self ∷ [] → create_body task ≡ ok none
  unfolding create_body
  create_body-nil e = rw e

  from_task-eq :
      (h : Text) (c : ℕ) (b : Option Text)
      → is_inherited_from_base_task task.class.first_bases ≡ true
      → create_header task ≡ ok (c ∷ h)
      → create_body task ≡ ok b
      → from_task task ≡ ok (record { kind = task_assign; header = c ∷ h; body = b })
  unfolding from_task
  from_task-eq h c b i eh eb = rw (i, eh, eb)

  -- The controller's side, for an assignment whose header is split as usual.
  to_task-eq :
      (m c t : Text) (b : Option Text) (texts : List Text) (class : TaskClass)
      → split field_separator (header_of task_ass m c t) ≡ task_ass ∷ m ∷ c ∷ t ∷ []
      → import_class m c ≡ ok class
      → body_items_of b ≡ texts
      → length texts ≤ 15
      → to_task import_class (assign_of m c t b)
        ≡ (instantiate class texts >>= λ made. ok (record made { tid = some t }))
  unfolding to_task create_from_message
  to_task-eq m c t b texts class es ei eb few =
      rw (es, ei, eb) (rw (create_task-few class texts few) refl)

  -- What the master sends of a task, and what the controller makes of it.
  abbrev pub Transfers : List Text → Type 0
  Transfers texts =
      (m : Message) × (from_task task ≡ ok m)
      × (create (to_string m) ≡ ok m)
      × (type_of m ≡ task_ass)
      × (to_task import_class m
          ≡ (instantiate task.class texts >>= λ made. ok (record made { tid = some tid })))

  abbrev mod_name : Text
  mod_name = task.class.class_module

  abbrev cls_name : Text
  cls_name = task.class.class_name

  Transfers-nil :
      (texts : List Text) → IsTransferable import_class task tid self [] texts → Transfers texts
  Transfers-nil [] h = (
    assign_of mod_name cls_name tid none,
    from_task-eq _ _ none h.inherits (create_header-eq h.in_package h.has_tid h.tid_set)
        (create_body-nil h.has_args),
    create-assign_none mod_name cls_name tid h.module_lacks h.class_lacks h.tid_lacks,
    type_of-assign mod_name cls_name tid h.module_lacks h.class_lacks h.tid_lacks none,
    to_task-eq mod_name cls_name tid none [] task.class
        (split-header mod_name cls_name tid h.module_lacks h.class_lacks h.tid_lacks) h.found refl
        h.few,
  )
  Transfers-nil (t ∷ ts) h = unfold argument_texts in cc h.has_texts

  Transfers-cons :
      (arg : Text) (args : List Text) (t : Text) (ts : List Text) (d : ℕ) (s : Text)
      → join field_separator (t ∷ ts) ≡ d ∷ s
      → IsTransferable import_class task tid self (arg ∷ args) (t ∷ ts)
      → Transfers (t ∷ ts)
  Transfers-cons arg args t ts d s e h = (
    assign_of mod_name cls_name tid (some (d ∷ s)),
    from_task-eq _ _ (some (d ∷ s)) h.inherits (create_header-eq h.in_package h.has_tid h.tid_set)
        (create_body-eq arg args (t ∷ ts) h.has_args h.has_texts ∙ ap (λ x. ok (some x)) e),
    create-assign_body mod_name cls_name tid h.module_lacks h.class_lacks h.tid_lacks d s,
    type_of-assign mod_name cls_name tid h.module_lacks h.class_lacks h.tid_lacks (some (d ∷ s)),
    to_task-eq mod_name cls_name tid (some (d ∷ s)) (t ∷ ts) task.class
        (split-header mod_name cls_name tid h.module_lacks h.class_lacks h.tid_lacks) h.found
        (rw (← e) (split-join field_separator t ts h.texts_lack.0 h.texts_lack.1)) h.few,
  )

  argument_texts-ne-nil : (arg : Text) (args : List Text) → argument_texts task (arg ∷ args) ≢ ok []
  unfolding argument_texts
  argument_texts-ne-nil arg args e = ground arith

  Transfers-join :
      (arg : Text) (args : List Text) (t : Text) (ts : List Text) (j : Text)
      → join field_separator (t ∷ ts) ≡ j
      → IsTransferable import_class task tid self (arg ∷ args) (t ∷ ts)
      → Transfers (t ∷ ts)
  Transfers-join arg args t ts [] e h = elim h.not_blank [ inl p ↦ cc | inr n ↦ absurd (n e) ]
  Transfers-join arg args t ts (d ∷ s) e h = Transfers-cons arg args t ts d s e h

-- What the controller makes of the message of a transferable task: its class, instantiated with the texts
pub to_task-instantiated :
    (import_class : Text → Text → Result TaskClass) (task : Task) (tid self : Text)
    (args texts : List Text)
    → IsTransferable import_class task tid self args texts
    → Transfers import_class task tid self texts
to_task-instantiated import_class task tid self [] texts h =
    Transfers-nil import_class task tid self texts h
to_task-instantiated import_class task tid self (arg ∷ args) [] h =
    absurd (argument_texts-ne-nil import_class task tid self arg args h.has_texts)
to_task-instantiated import_class task tid self (arg ∷ args) (t ∷ ts) h =
    Transfers-join import_class task tid self arg args t ts _ refl h

-- The constructor of the class makes of the texts of the arguments an object that is the task but for its id.
pub record IsRebuilt (task : Task) (tid : Text) (texts : List Text) : Type 0 where
  pub made : Task
  pub instantiated : instantiate task.class texts ≡ ok made
  pub same : record made { tid = some tid } ≡ task

-- A transferable task whose class makes the same object of the texts of its arguments is turned into a message
-- of the type of an assignment without an exception, the factory reads the text of that message as the same message, and
-- the message is turned into the same task: the class, the id and every attribute are those of the sent task.
pub to_task-from_task :
    (import_class : Text → Text → Result TaskClass) (task : Task) (tid self : Text)
    (args texts : List Text)
    → IsTransferable import_class task tid self args texts
    → IsRebuilt task tid texts
    → (m : Message) × (from_task task ≡ ok m)
      × (create (to_string m) ≡ ok m)
      × (type_of m ≡ task_ass)
      × (to_task import_class m ≡ ok task)
to_task-from_task import_class task tid self args texts h rebuilt =
    let (m, sent, read, type, got) = to_task-instantiated import_class task tid self args texts h in
    (m, sent, read, type, got ∙ rw rebuilt.instantiated (ap ok rebuilt.same))
