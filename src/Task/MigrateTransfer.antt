-- ===== src/Task/MigrateTransfer.antt =====
-- A migration task reaches a controller unchanged (task/lustre_ost_migrate_task.py).
use cyclone_distributed_task.Prelude.{
  ◌≡◌, ◌≢◌, refl, inr, Bool, true, false, some, [], ◌∷◌, arith, Text, ℤ, codes, List, ◌++◌, none,
}
use cyclone_distributed_task.Py.Result.{ok, ◌>>=◌}
use cyclone_distributed_task.Py.Int.RoundTrip.{parse-format, format-Lacks, format-cons}
use cyclone_distributed_task.Py.Int
use cyclone_distributed_task.Py.Str.{Lacks, join, contains}
use cyclone_distributed_task.Task.Object.{int, Task, instantiate, str, bool}
use cyclone_distributed_task.Task.Classes.{
  migrate_attributes, migrate_init, migrate_class, strtobool, import_class, int_or_blank,
}
use cyclone_distributed_task.Msg.Message.{Message, to_string, field_separator}
use cyclone_distributed_task.Msg.TaskAssign.{
  from_task, to_task, argument_texts, is_inherited_from_base_task,
}
use cyclone_distributed_task.Msg.Factory.{create}
use cyclone_distributed_task.Msg.TaskTransfer.{IsRebuilt, IsTransferable, to_task-from_task}

abbrev pub migrate_task : Text → Text → ℤ → ℤ → Bool → Bool → Bool → Task
migrate_task tid filename source target direct_io block skip = record {
  class = migrate_class;
  tid = some tid;
  attributes = migrate_attributes filename (int source) (int target) direct_io block skip;
}

abbrev bool_text : Bool → Text
bool_text true = codes "True"
bool_text false = codes "False"

strtobool-bool_text : (b : Bool) → strtobool (bool_text b) ≡ ok b
unfolding strtobool
strtobool-bool_text true = refl
strtobool-bool_text false = refl

int_or_blank-format : (z : ℤ) → int_or_blank (Int.format z) ≡ ok (int z)
unfolding int_or_blank
int_or_blank-format z = let (c, s, e) = format-cons z in rw e (rw (rw e at (parse-format z)) refl)

str-bool : (b : Bool) → str (bool b) ≡ bool_text b
unfolding str
str-bool true = refl
str-bool false = refl

module _ (tid filename : Text) (source target : ℤ) (direct_io block skip : Bool) where
  abbrev texts : List Text
  texts =
      filename
      ∷ Int.format source
      ∷ Int.format target
      ∷ bool_text direct_io
      ∷ bool_text block
      ∷ bool_text skip
      ∷ []

  abbrev args : List Text
  args =
      codes "filename"
      ∷ codes "source_ost"
      ∷ codes "target_ost"
      ∷ codes "direct_io"
      ∷ codes "block"
      ∷ codes "skip"
      ∷ []

  migrate_init-texts :
      migrate_init texts
      ≡ ok (migrate_attributes filename (int source) (int target) direct_io block skip)
  unfolding migrate_init
  migrate_init-texts = rw (
    int_or_blank-format source,
    int_or_blank-format target,
    strtobool-bool_text direct_io,
    strtobool-bool_text block,
    strtobool-bool_text skip,
  )

  instantiate-migrate :
      instantiate migrate_class texts
      ≡ ok (record (migrate_task tid filename source target direct_io block skip) { tid = none })
  unfolding instantiate migrate_class
  instantiate-migrate = rw migrate_init-texts

  pub migrate-IsRebuilt :
      IsRebuilt (migrate_task tid filename source target direct_io block skip) tid texts
  migrate-IsRebuilt = record {
    made = record (migrate_task tid filename source target direct_io block skip) { tid = none };
    instantiated = instantiate-migrate;
    same = refl;
  }

  bool_text-Lacks : (b : Bool) → Lacks field_separator (bool_text b)
  bool_text-Lacks true = omega arith
  bool_text-Lacks false = omega arith

  int-Lacks : (z : ℤ) → Lacks field_separator (Int.format z)
  int-Lacks z = format-Lacks field_separator z (omega arith) (inr (omega arith))

  join-ne-nil : filename ≢ [] → join field_separator texts ≢ []
  unfolding join
  join-ne-nil n e = go filename n e
    where
      go :
          (f : Text)
          → f ≢ []
          → (f
              ++ (field_separator
                  ∷ join field_separator (
                      Int.format source
                      ∷ Int.format target
                      ∷ bool_text direct_io
                      ∷ bool_text block
                      ∷ bool_text skip
                      ∷ [])))
            ≢ []
      go [] n e = cc
      go (x ∷ f) n e = cc

  argument_texts-migrate :
      argument_texts (migrate_task tid filename source target direct_io block skip) args ≡ ok texts
  unfolding argument_texts migrate_attributes
  argument_texts-migrate = rw (str-bool direct_io, str-bool block, str-bool skip)

  pub migrate-IsTransferable :
      tid ≢ []
      → Lacks field_separator tid
      → filename ≢ []
      → Lacks field_separator filename
      → IsTransferable import_class
          (migrate_task tid filename source target direct_io block skip)
          tid
          (codes "self")
          args
          texts
  unfolding import_class migrate_class is_inherited_from_base_task contains
  migrate-IsTransferable nt lt nf lf = record {
    found = refl;
    inherits = refl;
    in_package = refl;
    has_tid = refl;
    tid_set = nt;
    module_lacks = omega arith;
    class_lacks = omega arith;
    tid_lacks = lt;
    has_args = refl;
    has_texts = argument_texts-migrate;
    texts_lack = (
      lf,
      (
        int-Lacks source,
        (
          int-Lacks target,
          (bool_text-Lacks direct_io, (bool_text-Lacks block, (bool_text-Lacks skip, tt))),
        ),
      ),
    );
    few = omega arith;
    not_blank = inr (join-ne-nil nf);
  }

-- The message of a migration task whose id and file name are set and hold no separator is read by
-- the controller as the very same task: id, file name, both OST indexes and all three flags.
pub transfer_migrate_task :
    (tid filename : Text) (source target : ℤ) (direct_io block skip : Bool)
    → tid ≢ []
    → Lacks field_separator tid
    → filename ≢ []
    → Lacks field_separator filename
    → (m : Message) × (from_task (migrate_task tid filename source target direct_io block skip)
        ≡ ok m)
      × ((create (to_string m) >>= λ read. to_task import_class read)
          ≡ ok (migrate_task tid filename source target direct_io block skip))
transfer_migrate_task tid filename source target direct_io block skip nt lt nf lf =
    let (m, sent, read, _, got) =
      to_task-from_task import_class (migrate_task tid filename source target direct_io block skip)
        tid (codes "self") _ _
        (migrate-IsTransferable tid filename source target direct_io block skip nt lt nf lf)
        (migrate-IsRebuilt tid filename source target direct_io block skip) in
    (m, sent, rw read got)
