-- ===== src/Prometheus/CreationCheck.antt =====
-- prometheus/lustre_file_creation_check.py: the result of a check as a text, and its parser.
use cyclone_distributed_task.Prelude.{
  ◌≡◌, refl, false, ◌∙◌, ap, List, [], ◌∷◌, ◌++◌, Text, text_eq, ◌==◌, codes, ℤ, is_nil,
  if◌then◌else◌, arith,
}
use cyclone_distributed_task.Py.Result.{
  Result, ok, err, runtime_error, ◌>>=◌, ◌>>◌, raise_if, item_at,
}
use cyclone_distributed_task.Py.Str.{split, split-append_sep, split-Lacks, Lacks}
use cyclone_distributed_task.Py.Int
use cyclone_distributed_task.Py.Int.RoundTrip.{parse-format, format-Lacks}
use cyclone_distributed_task.Msg.Message.{field_separator}

-- `LustreFileCreationCheckState`; the states that carry indices have them here.
pub data CheckState : Type 0 where
  ok_state failed : (mdt_idx ost_idx : ℤ) → CheckState
  error_state ignored : CheckState

abbrev pub state_text : CheckState → Text
state_text (ok_state mdt_idx ost_idx) = codes "OK"
state_text (failed mdt_idx ost_idx) = codes "FAILED"
state_text error_state = codes "ERROR"
state_text ignored = codes "IGNORED"

abbrev pub indices_text : ℤ → ℤ → Text
indices_text mdt_idx ost_idx =
    field_separator ∷ (Int.format mdt_idx ++ (field_separator ∷ Int.format ost_idx))

abbrev pub with_indices : CheckState → Text
with_indices (ok_state mdt_idx ost_idx) = indices_text mdt_idx ost_idx
with_indices (failed mdt_idx ost_idx) = indices_text mdt_idx ost_idx
with_indices error_state = []
with_indices ignored = []

-- `LustreFileCreationCheckResult`
pub record CheckResult : Type 0 where
  pub target : Text
  pub state : CheckState

unfoldable pub new_result : Text → CheckState → Result CheckResult
new_result target state = do
  raise_if (is_nil target) runtime_error
  ok (record { target = target; state = state })

unfoldable pub to_string : CheckResult → Text
to_string r = r.target ++ (field_separator ∷ (state_text r.state ++ with_indices r.state))

read_indices : (ℤ → ℤ → CheckState) → Text → List Text → Result CheckResult
unfolding new_result
read_indices state target fields = do
  third ← item_at fields 2
  mdt_idx ← Int.parse third
  fourth ← item_at fields 3
  ost_idx ← Int.parse fourth
  new_result target (state mdt_idx ost_idx)

-- `_create_from_str`
unfoldable pub create_from_str : Text → Result CheckResult
unfolding read_indices
create_from_str result = do
  let fields = split field_separator result
  target ← item_at fields 0
  state ← item_at fields 1
  if codes "OK" == state
      then read_indices ok_state target fields
      else if codes "FAILED" == state
      then read_indices failed target fields
      else if codes "ERROR" == state
      then new_result target error_state
      else err runtime_error

-- What the parser gives for a result
abbrev pub parsed : CheckResult → Result CheckResult
parsed r = elim r.state [ ignored ↦ err runtime_error | _ ↦ ok r ]

no_separator : (z : ℤ) → Lacks field_separator (Int.format z)
no_separator z = format-Lacks field_separator z (omega arith) (omega arith)

split_indices :
    (target state : Text) (mdt_idx ost_idx : ℤ)
    → Lacks field_separator target
    → Lacks field_separator state
    → split field_separator (target ++ (field_separator ∷ (state ++ indices_text mdt_idx ost_idx)))
      ≡ target ∷ state ∷ Int.format mdt_idx ∷ Int.format ost_idx ∷ []
split_indices target state mdt_idx ost_idx lt ls =
    split-append_sep field_separator target _ lt
    ∙ ap (λ r. target ∷ r) (split-append_sep field_separator state _ ls)
    ∙ ap (λ r. target ∷ state ∷ r)
        (split-append_sep field_separator (Int.format mdt_idx) _ (no_separator mdt_idx))
    ∙ ap (λ r. target ∷ state ∷ Int.format mdt_idx ∷ r)
        (split-Lacks field_separator (Int.format ost_idx) (no_separator ost_idx))

split_two :
    (target state : Text)
    → Lacks field_separator target
    → Lacks field_separator state
    → split field_separator (target ++ (field_separator ∷ state)) ≡ target ∷ state ∷ []
split_two target state lt ls =
    split-append_sep field_separator target _ lt
    ∙ ap (λ r. target ∷ r) (split-Lacks field_separator state ls)

read_back :
    (state : ℤ → ℤ → CheckState) (target name : Text) (mdt_idx ost_idx : ℤ)
    → is_nil target ≡ false
    → read_indices state target (target ∷ name ∷ Int.format mdt_idx ∷ Int.format ost_idx ∷ [])
      ≡ ok (record { target = target; state = state mdt_idx ost_idx })
unfolding read_indices new_result
read_back state target name mdt_idx ost_idx set =
    rw (parse-format mdt_idx, parse-format ost_idx, set) refl

-- The text of a result whose target is set and holds no separator is read as that result, with its
-- indices, except that the state "ignored" is refused.
pub create_from_str-to_string :
    (r : CheckResult)
    → is_nil r.target ≡ false
    → Lacks field_separator r.target
    → create_from_str (to_string r) ≡ parsed r
unfolding create_from_str to_string new_result
create_from_str-to_string r set lacks = go r.target r.state set lacks
  where
    go :
        (target : Text) (state : CheckState)
        → is_nil target ≡ false
        → Lacks field_separator target
        → create_from_str (to_string (record { target = target; state = state }))
          ≡ parsed (record { target = target; state = state })
    go target (ok_state m o) set lacks =
        rw (split_indices target (codes "OK") m o lacks (omega arith))
          (read_back ok_state target (codes "OK") m o set)
    go target (failed m o) set lacks =
        rw (split_indices target (codes "FAILED") m o lacks (omega arith))
          (read_back failed target (codes "FAILED") m o set)
    go target error_state set lacks =
        rw (split_two target (codes "ERROR") lacks (omega arith), set) refl
    go target ignored set lacks = rw (split_two target (codes "IGNORED") lacks (omega arith)) refl
