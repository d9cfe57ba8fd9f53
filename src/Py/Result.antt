-- ===== src/Py/Result.antt =====
-- Python's exceptions as values. The class of an exception is kept and its message is not.
use cyclone_distributed_task.Prelude.{Bool, true, false, ℕ, zero, suc, List, [], ◌∷◌}

pub data Error : Type 0 where
  runtime_error value_error type_error attribute_error index_error key_error : Error
  io_error import_error interrupted_error zero_division_error unbound_local_error : Error
  config_value_error config_value_out_of_range_error task_xml_reader_error : Error

pub data Result {ℓ} (A : Type ℓ) : Type ℓ where
  ok : A → Result A
  err : Error → Result A

-- `if test: raise e`
abbrev pub raise_if : Bool → Error → Result (Unit {0})
raise_if test e = elim test [ false ↦ ok tt | true ↦ err e ]

module _ {ℓ κ} {A : Type ℓ} {B : Type κ} where
  infixl 5 ◌>>=◌
  abbrev pub ◌>>=◌ : Result A → (A → Result B) → Result B
  r >>= next = elim r [ ok a ↦ next a | err e ↦ err e ]

module _ {ℓ} {B : Type ℓ} where
  infixl 5 ◌>>◌
  abbrev pub ◌>>◌ : Result (Unit {0}) → Result B → Result B
  r >> after = elim r [ ok _ ↦ after | err e ↦ err e ]

-- `xs[i]` for i ≥ 0
abbrev pub item_at {ℓ} : {A : Type ℓ} → List A → ℕ → Result A
item_at [] i = err index_error
item_at (x ∷ xs) zero = ok x
item_at (x ∷ xs) (suc i) = item_at xs i
