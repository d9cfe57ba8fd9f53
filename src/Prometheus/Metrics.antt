-- ===== src/Prometheus/Metrics.antt =====
-- prometheus/lustre_file_creation_check.py: the metrics that the results leave. A `defaultdict` is a
-- dict that is read with a default.
use cyclone_distributed_task.Prelude.{
  ℕ, ◌≡◌, refl, Bool, true, false, ◌&&◌, ◌∙◌, ap, Option, none, some, [], Text, text_eq, int_eq,
  ◌==◌, eq_iff, ℤ, is_nil, if◌then◌else◌, Bool-cases, inl, inr,
}
use cyclone_distributed_task.Py.Result.{ok}
use cyclone_distributed_task.Py.Exec.{Exec, lift, modify, ◌>>=◌}
use cyclone_distributed_task.Py.Dict.{Dict, get, put, get-put}
use cyclone_distributed_task.Py.Str.{Lacks}
use cyclone_distributed_task.Msg.Message.{field_separator}
use cyclone_distributed_task.Prometheus.CreationCheck.{
  ok_state, failed, error_state, ignored, CheckResult, to_string, create_from_str,
  create_from_str-to_string,
}

abbrev pub OstMetrics : Type 0
OstMetrics = Dict ℤ ℕ

abbrev pub MdtMetrics : Type 0
MdtMetrics = Dict ℤ OstMetrics

pub record Processor : Type 0 where
  pub error_metric : Bool
  pub check_metrics : Dict Text MdtMetrics

-- `d[k]` of a `defaultdict` whose defaults are empty dicts
abbrev pub or_empty : {K V : Type 0} → Option (Dict K V) → Dict K V
or_empty none = []
or_empty (some d) = d

-- `self.check_metrics[target][mdt_idx][ost_idx] = value`
unfoldable pub set_metric : Text → ℤ → ℤ → ℕ → Dict Text MdtMetrics → Dict Text MdtMetrics
set_metric target mdt_idx ost_idx value d =
    let mdts = or_empty (get target d) in
    let osts = or_empty (get mdt_idx mdts) in
    put target (put mdt_idx (put ost_idx value osts) mdts) d

unfoldable pub metric : Text → ℤ → ℤ → Dict Text MdtMetrics → Option ℕ
metric target mdt_idx ost_idx d = get ost_idx (or_empty (get mdt_idx (or_empty (get target d))))

unfoldable pub note : CheckResult → Processor → Processor
note r p = elim r.state [
  | ok_state mdt_idx ost_idx ↦ record p {
    check_metrics = set_metric r.target mdt_idx ost_idx 1 p.check_metrics;
  }
  | failed mdt_idx ost_idx ↦ record p {
    check_metrics = set_metric r.target mdt_idx ost_idx 0 p.check_metrics;
  }
  | error_state ↦ record p { error_metric = true }
  | ignored ↦ record p { error_metric = true }
]

-- `process`
unfoldable pub process : Text → Exec Processor (Unit {0})
process msg = do r ← lift (create_from_str msg); modify (note r)

-- `clear`
unfoldable pub clear : Processor → Processor
clear p = record { error_metric = false; check_metrics = [] }

abbrev pub is_metric : Text → ℤ → ℤ → Text → ℤ → ℤ → Bool
is_metric target mdt_idx ost_idx t m o = target == t && mdt_idx == m && ost_idx == o

or_empty-if :
    {K V : Type 0} (b : Bool) (v : Dict K V) (old : Option (Dict K V))
    → or_empty (if b then some v else old) ≡ (if b then v else or_empty old)
or_empty-if true v old = refl
or_empty-if false v old = refl

-- The inner dicts under a key, after an assignment
osts_of :
    (mdt_idx m : ℤ) (osts : OstMetrics) (mdts : MdtMetrics)
    → or_empty (get m (put mdt_idx osts mdts))
      ≡ (if mdt_idx == m then osts else or_empty (get m mdts))
osts_of mdt_idx m osts mdts =
    ap or_empty (get-put mdt_idx m osts mdts) ∙ or_empty-if (mdt_idx == m) osts _

mdts_of :
    (target t : Text) (mdts : MdtMetrics) (d : Dict Text MdtMetrics)
    → or_empty (get t (put target mdts d)) ≡ (if target == t then mdts else or_empty (get t d))
mdts_of target t mdts d = ap or_empty (get-put target t mdts d) ∙ or_empty-if (target == t) mdts _

-- One MDT's part of the lookup
at_mdt :
    (mdt_idx ost_idx : ℤ) (value : ℕ) (mdts : MdtMetrics) (m o : ℤ)
    → get o (or_empty (get m (put mdt_idx (put ost_idx value (or_empty (get mdt_idx mdts))) mdts)))
      ≡ (if mdt_idx == m && ost_idx == o then some value else get o (or_empty (get m mdts)))
at_mdt mdt_idx ost_idx value mdts m o = elim (Bool-cases (mdt_idx == m)) [
  | inr n ↦ rw (osts_of mdt_idx m (put ost_idx value (or_empty (get mdt_idx mdts))) mdts, n) refl
  | inl y ↦
      rw (osts_of mdt_idx m (put ost_idx value (or_empty (get mdt_idx mdts))) mdts, y)
        (get-put ost_idx o value (or_empty (get mdt_idx mdts))
          ∙ ap (λ k. if ost_idx == o then some value else get o (or_empty (get k mdts)))
              ((eq_iff mdt_idx m).0 y))
]

-- Setting a metric changes that metric and no other.
pub metric-set_metric :
    (target : Text) (mdt_idx ost_idx : ℤ) (value : ℕ) (d : Dict Text MdtMetrics) (t : Text)
    (m o : ℤ)
    → metric t m o (set_metric target mdt_idx ost_idx value d)
      ≡ (if is_metric target mdt_idx ost_idx t m o then some value else metric t m o d)
unfolding metric set_metric
metric-set_metric target mdt_idx ost_idx value d t m o = elim (Bool-cases (target == t)) [
  | inr n ↦ rw (mdts_of target t _ d, n) refl
  | inl y ↦
      rw (mdts_of target t _ d, y)
        (at_mdt mdt_idx ost_idx value (or_empty (get target d)) m o
          ∙ ap
              (λ k.
                if mdt_idx == m && ost_idx == o
                then some value
                else get o (or_empty (get m (or_empty (get k d)))))
              ((eq_iff target t).0 y))
]

-- The result of a check with indices
abbrev pub checked : Bool → Text → ℤ → ℤ → CheckResult
checked true target mdt_idx ost_idx = record { target = target; state = ok_state mdt_idx ost_idx }
checked false target mdt_idx ost_idx = record { target = target; state = failed mdt_idx ost_idx }

abbrev pub metric_value : Bool → ℕ
metric_value true = 1
metric_value false = 0

-- The text of a result "ok" or "failed" whose target is set and holds no separator is processed
-- without an exception: the metric of its target and indices becomes 1 or 0, and no other metric
-- changes.
pub process-checked :
    (passed : Bool) (target : Text) (mdt_idx ost_idx : ℤ) (p : Processor) (t : Text) (m o : ℤ)
    → is_nil target ≡ false
    → Lacks field_separator target
    → let r = process (to_string (checked passed target mdt_idx ost_idx)) p in
      (r.0 ≡ ok tt)
      × (r.1.error_metric ≡ p.error_metric)
      × (metric t m o r.1.check_metrics ≡ (
          if is_metric target mdt_idx ost_idx t m o
          then some (metric_value passed)
          else metric t m o p.check_metrics))
unfolding process note
process-checked true target mdt_idx ost_idx p t m o set lacks =
    rw (create_from_str-to_string (checked true target mdt_idx ost_idx) set lacks)
      (refl, refl, metric-set_metric target mdt_idx ost_idx 1 p.check_metrics t m o)
process-checked false target mdt_idx ost_idx p t m o set lacks =
    rw (create_from_str-to_string (checked false target mdt_idx ost_idx) set lacks)
      (refl, refl, metric-set_metric target mdt_idx ost_idx 0 p.check_metrics t m o)
