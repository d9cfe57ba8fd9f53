-- ===== src/Task/Check/Delivery.antt =====
-- From the check of an OST to the metrics of the pushgateway client.
use cyclone_distributed_task.Pushgateway.Batches.{collect}
use cyclone_distributed_task.Prelude.{
  ◌≡◌, refl, ◌∙◌, ap, sym, true, false, Bool, ◌&&◌, ◌||◌, Option, some, List, [], ◌∷◌, ◌++◌, map,
  Text, text_eq, ℕ, ℤ, int_eq, ◌==◌, is_nil, if◌then◌else◌, append-nil, append_assoc, All, eq_iff,
}
use cyclone_distributed_task.Py.Result.{Result, ok}
use cyclone_distributed_task.Prometheus.CreationCheck.{
  ok_state, failed, CheckResult, to_string, new_result,
}
use cyclone_distributed_task.Prometheus.Metrics.{
  checked, Processor, metric_value, metric, is_metric, process-checked,
}
use cyclone_distributed_task.Task.Check.{
  CheckTask, MdtAnswers, check_file, at_exit, or_error_result, check_mdt,
}
use cyclone_distributed_task.Task.Check.Sending.{
  CheckAnswers, check_mdts, check, try_check, check_if_active,
}
use cyclone_distributed_task.Pushgateway.{absorb}
use cyclone_distributed_task.Py.Str.{Lacks}
use cyclone_distributed_task.Msg.Message.{field_separator}

-- The check of an MDT raises nothing, and its file is on the OST with an index.
pub record Answered (a : MdtAnswers) (found : ℤ) : Type 0 where
  pub existed : Bool
  pub exists : a.exists_before ≡ ok existed
  pub removed : a.removes ≡ ok tt
  pub striped : a.stripes ≡ ok tt
  pub index : a.stripe_index ≡ ok found
  pub removed_at_exit : a.removes_at_exit ≡ ok tt

either_ok : (b : Bool) (r : Result (Unit {0})) → r ≡ ok tt → (if b then r else ok tt) ≡ ok tt
either_ok true r e = e
either_ok false r e = refl

-- The result that the check of an MDT has then
abbrev pub result_of : CheckTask → (ℤ → ℤ) → ℤ → CheckResult
result_of t found mdt_idx = checked (t.ost_idx == found mdt_idx) t.lfs_target mdt_idx t.ost_idx

new_result-checked :
    (b : Bool) (target : Text) (mdt_idx ost_idx : ℤ)
    → is_nil target ≡ false
    → new_result target (if b then ok_state mdt_idx ost_idx else failed mdt_idx ost_idx)
      ≡ ok (checked b target mdt_idx ost_idx)
unfolding new_result
new_result-checked true target mdt_idx ost_idx set = rw set refl
new_result-checked false target mdt_idx ost_idx set = rw set refl

check_mdt-result :
    (a : MdtAnswers) (t : CheckTask) (found : ℤ → ℤ) (mdt_idx : ℤ)
    → is_nil t.lfs_target ≡ false
    → Answered a (found mdt_idx)
    → check_mdt a t mdt_idx ≡ ok (result_of t found mdt_idx)
unfolding check_mdt at_exit or_error_result check_file
check_mdt-result a t found mdt_idx set h = simp (
  h.exists,
  either_ok h.existed a.removes h.removed,
  h.striped,
  h.index,
  either_ok a.exists_at_exit a.removes_at_exit h.removed_at_exit,
  new_result-checked (t.ost_idx == found mdt_idx) t.lfs_target mdt_idx t.ost_idx set,
)

abbrev texts : CheckTask → (ℤ → ℤ) → List ℤ → List Text
texts t found = map (λ mdt_idx. to_string (result_of t found mdt_idx))

-- The check of each MDT is answered and its result is sent.
abbrev pub Delivered : CheckAnswers → (ℤ → ℤ) → List ℤ → Type 0
Delivered a found =
    All (λ mdt_idx. Answered (a.mdt mdt_idx) (found mdt_idx) × (a.sends mdt_idx ≡ ok tt))

check_mdts-texts :
    (a : CheckAnswers) (t : CheckTask) (found : ℤ → ℤ) (indices : List ℤ) (sent : List Text)
    → is_nil t.lfs_target ≡ false
    → Delivered a found indices
    → check_mdts a t indices sent ≡ (ok tt, sent ++ texts t found indices)
unfolding check_mdts
check_mdts-texts a t found [] sent set all = ap (λ r. (ok tt, r)) (sym (append-nil sent))
check_mdts-texts a t found (i ∷ is) sent set (h, hs) =
    simp (check_mdt-result (a.mdt i) t found i set h.0, h.1)
      (check_mdts-texts a t found is (sent ++ to_string (result_of t found i) ∷ []) set hs
        ∙ ap (λ r. (ok tt, r)) (append_assoc sent _ (texts t found is)))

-- `mdt_idx in indices`
abbrev pub lists : List ℤ → ℤ → Bool
lists [] m = false
lists (i ∷ is) m = i == m || lists is m

merge :
    (same_target same_ost same_mdt listed : Bool) (v w : ℕ) (old : Option ℕ)
    → (same_mdt ≡ true → v ≡ w)
    → (if same_target && same_ost && listed
        then some w
        else if same_target && same_mdt && same_ost
        then some v
        else old)
      ≡ (if same_target && same_ost && (same_mdt || listed) then some w else old)
merge false _ _ _ v w old e = refl
merge true false true _ v w old e = refl
merge true false false _ v w old e = refl
merge true true true true v w old e = refl
merge true true true false v w old e = ap some (e refl)
merge true true false true v w old e = refl
merge true true false false v w old e = refl

-- The value of the metric of an MDT after its check
abbrev pub value_of : CheckTask → (ℤ → ℤ) → ℤ → ℕ
value_of t found m = metric_value (t.ost_idx == found m)

metric-absorb :
    (t : CheckTask) (found : ℤ → ℤ) (i : ℤ) (p : Processor) (target : Text) (m o : ℤ)
    → is_nil t.lfs_target ≡ false
    → Lacks field_separator t.lfs_target
    → metric target m o (absorb (to_string (result_of t found i)) p).check_metrics ≡ (
        if is_metric t.lfs_target i t.ost_idx target m o
        then some (value_of t found i)
        else metric target m o p.check_metrics)
unfolding absorb
metric-absorb t found i p target m o set lacks =
    (process-checked (t.ost_idx == found i) t.lfs_target i t.ost_idx p target m o set lacks).2

metric-collect :
    (t : CheckTask) (found : ℤ → ℤ) (indices : List ℤ) (p : Processor) (target : Text) (m o : ℤ)
    → is_nil t.lfs_target ≡ false
    → Lacks field_separator t.lfs_target
    → metric target m o (collect (texts t found indices) p).check_metrics ≡ (
        if t.lfs_target == target && t.ost_idx == o && lists indices m
        then some (value_of t found m)
        else metric target m o p.check_metrics)
metric-collect t found [] p target m o set lacks =
    none_listed (t.lfs_target == target) (t.ost_idx == o) _ _
  where
    none_listed : (b c : Bool) (v old : Option ℕ) → old ≡ (if b && c && false then v else old)
    none_listed true true v old = refl
    none_listed true false v old = refl
    none_listed false c v old = refl
metric-collect t found (i ∷ is) p target m o set lacks =
    metric-collect t found is (absorb (to_string (result_of t found i)) p) target m o set lacks
    ∙ rw (metric-absorb t found i p target m o set lacks) (
        merge (t.lfs_target == target) (t.ost_idx == o) (i == m) (lists is m) (value_of t found i)
          (value_of t found m) _ (λ e. ap (value_of t found) ((eq_iff i m).0 e)))

-- For an active OST whose checks are all answered and sent, a set target without the separator: the task raises
-- nothing, and once the client has taken in what it sent, the metric of this target and OST and of each listed MDT
-- is 1 or 0 as the file of that MDT lay on the OST or not, and every other metric is as before.
pub check-collect :
    (a : CheckAnswers) (t : CheckTask) (found : ℤ → ℤ) (p : Processor) (target : Text) (m o : ℤ)
    → a.is_ost_idx_active ≡ ok true
    → a.connects ≡ ok tt
    → Delivered a found t.mdt_index_list
    → is_nil t.lfs_target ≡ false
    → Lacks field_separator t.lfs_target
    → let (r, sent) = check a t [] in
      (r ≡ ok tt)
      × (metric target m o (collect sent p).check_metrics ≡ (
          if t.lfs_target == target && t.ost_idx == o && lists t.mdt_index_list m
          then some (value_of t found m)
          else metric target m o p.check_metrics))
unfolding check try_check check_if_active
check-collect a t found p target m o active connects delivered set lacks =
    simp (active, connects, check_mdts-texts a t found t.mdt_index_list [] set delivered)
      (refl, metric-collect t found t.mdt_index_list p target m o set lacks)
