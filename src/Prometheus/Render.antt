-- ===== src/Prometheus/Render.antt =====
-- prometheus/lustre_file_creation_check.py: the text with the metrics that is pushed.
use cyclone_distributed_task.Prelude.{ℕ, ℤ, pos, true, false, Bool, [], ◌∷◌, ◌++◌, Text, codes}
use cyclone_distributed_task.Py.Int
use cyclone_distributed_task.Py.Dict.{Dict}
use cyclone_distributed_task.Prometheus.Metrics.{OstMetrics, MdtMetrics, Processor}

metric_error_name : Text
metric_error_name = codes "cyclone_lustre_file_creation_error"

metric_check_name : Text
metric_check_name = codes "cyclone_lustre_file_creation_check"

-- The two lines with the help and the type of a metric
metric_head : Text → Text → Text
metric_head name help =
    codes "# HELP " ++ name ++ help ++ codes "\n# TYPE " ++ name ++ codes " gauge\n"

-- `int(b)`
abbrev flag : Bool → ℤ
flag true = pos 1
flag false = pos 0

-- `_create_error_metric`
unfoldable pub create_error_metric : Processor → Text
unfolding metric_head metric_error_name
create_error_metric p =
    metric_head metric_error_name (
      codes
        " Indicates if an error occured during the Lustre File Creation Check (0=False/1=True).")
    ++ metric_error_name
    ++ (b' ' ∷ Int.format (flag p.error_metric))
    ++ codes "\n"

-- The line of one metric
metric_line : Text → ℤ → ℤ → ℕ → Text
unfolding metric_check_name
metric_line target mdt_idx ost_idx value =
    metric_check_name
    ++ codes " {target=\""
    ++ target
    ++ codes "\", mdt_index=\""
    ++ Int.format mdt_idx
    ++ codes "\", ost_index=\""
    ++ Int.format ost_idx
    ++ codes "\"} "
    ++ Int.format (pos value)
    ++ codes "\n"

-- The three loops, one inside of the other
ost_lines : Text → ℤ → OstMetrics → Text
unfolding metric_line
ost_lines target mdt_idx [] = []
ost_lines target mdt_idx ((ost_idx, value) ∷ rest) =
    metric_line target mdt_idx ost_idx value ++ ost_lines target mdt_idx rest

mdt_lines : Text → MdtMetrics → Text
unfolding ost_lines
mdt_lines target [] = []
mdt_lines target ((mdt_idx, osts) ∷ rest) = ost_lines target mdt_idx osts ++ mdt_lines target rest

target_lines : Dict Text MdtMetrics → Text
unfolding mdt_lines
target_lines [] = []
target_lines ((target, mdts) ∷ rest) = mdt_lines target mdts ++ target_lines rest

-- `_create_check_metrics`
unfoldable pub create_check_metrics : Processor → Text
unfolding metric_head metric_check_name target_lines
create_check_metrics p =
    metric_head metric_check_name (
      codes
        " Indicates if the Lustre File Creation Check per MDT and OST succeeded (0=False/1=True).")
    ++ target_lines p.check_metrics

-- `data`
unfoldable pub render : Processor → Text
unfolding create_error_metric create_check_metrics
render p = create_error_metric p ++ create_check_metrics p
