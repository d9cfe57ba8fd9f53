-- ===== src/Py/Dict.antt =====
-- Python's `dict`, in insertion order: assigning to a key that is there keeps its place, and a
-- new key goes to the end. A dict that is built by `put` holds each key once.
use cyclone_distributed_task.Prelude.{
  ℕ, ◌≡◌, refl, Bool, true, false, Option, none, some, List, [], ◌∷◌, arith, Eq, ◌==◌, eq_iff,
  if◌then◌else◌, length, nat_beq,
}
use cyclone_distributed_task.Py.Result.{Result, ok, err, key_error, runtime_error}
use cyclone_distributed_task.Py.Exec.{Exec}

abbrev pub Dict {ℓ} : Type 0 → Type ℓ → Type ℓ
Dict K V = List (K × V)

module _ {ℓ} {K : Type 0} {V : Type ℓ} where
  -- `list(d)`, `d.keys()`
  abbrev pub keys : Dict K V → List K
  keys [] = []
  keys ((k, v) ∷ d) = k ∷ keys d

  -- `d.values()`
  abbrev pub values : Dict K V → List V
  values [] = []
  values ((k, v) ∷ d) = v ∷ values d

module _ {ℓ} {K : Type 0} ⦃e : Eq K⦄ {V : Type ℓ} where
  unfoldable pub get : K → Dict K V → Option V
  get k [] = none
  get k ((j, v) ∷ d) = if k == j then some v else get k d

  -- `d[k] = v`
  unfoldable pub put : K → V → Dict K V → Dict K V
  put k v [] = (k, v) ∷ []
  put k v ((j, w) ∷ d) = if k == j then (j, v) ∷ d else (j, w) ∷ put k v d

  -- `d.pop(k, None)`, `del d[k]`
  unfoldable pub remove : K → Dict K V → Dict K V
  remove k [] = []
  remove k ((j, w) ∷ d) = let rest = remove k d in if k == j then rest else (j, w) ∷ rest

  -- `k in d`
  abbrev pub contains : K → Dict K V → Bool
  contains k d = elim (get k d) [ none ↦ false | some _ ↦ true ]

  -- `d[k]`
  abbrev pub item : K → Dict K V → Result V
  item k d = elim (get k d) [ none ↦ err key_error | some v ↦ ok v ]

  pub get-put :
      (k j : K) (v : V) (d : Dict K V) → get j (put k v d) ≡ (if k == j then some v else get j d)
  unfolding get put
  get-put k j v [] = ground (arith, eq_iff k j, eq_iff j k)
  get-put k j v ((i, w) ∷ d) =
      ground (arith, eq_iff k j, eq_iff j k, eq_iff k i, eq_iff j i, get-put k j v d)

  pub get-remove :
      (k j : K) (d : Dict K V) → get j (remove k d) ≡ (if k == j then none else get j d)
  unfolding get remove
  get-remove k j [] = ground arith
  get-remove k j ((i, w) ∷ d) = ground (arith, eq_iff k j, eq_iff k i, eq_iff j i, get-remove k j d)

pub get-nil {ℓ} : {K : Type 0} {V : Type ℓ} ⦃e : Eq K⦄ (k : K) → get {V = V} k [] ≡ none
unfolding get
get-nil k = refl

pub ruleset dict_laws = (get-put, get-remove, get-nil)

-- `for k in d: body`, where the body may change `d`. The iterator compares the size of the dict
-- with the size at the start each time it is asked for the next key, also behind the last one.
module _ {K : Type 0} {V : Type 0} (body : K → Dict K V → Dict K V) where
  unfoldable pub for_keys : ℕ → List K → Exec (Dict K V) (Unit {0})
  for_keys size [] d = (if nat_beq (length d) size then ok tt else err runtime_error, d)
  for_keys size (k ∷ ks) d =
      let next = for_keys size ks (body k d) in
      if nat_beq (length d) size then next else (err runtime_error, d)
