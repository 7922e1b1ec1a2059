-- ===== src/Pdata.antt =====
-- The telemetry data of pdata, as far as exporter.go reads it, and its counts.
pub mod Counts
pub mod Tests
use exportercreator.Prelude.{ℕ, List, [], ◌∷◌, Option, length, Text, int_add, word, ◌%◌}

-- The attributes are what `Get` and then `AsString` give for a name; records are references.
pub record ResourceLogs : Type 0 where
  pub attributes : Text → Option Text
  pub scope_logs : List (List ℕ)

pub record ResourceSpans : Type 0 where
  pub attributes : Text → Option Text
  pub scope_spans : List (List ℕ)

-- A metric of each type, with its data points.
pub data Metric : Type 0 where
  gauge sum histogram exponential_histogram summary : List ℕ → Metric
  empty : Metric

pub record ResourceMetrics : Type 0 where
  pub attributes : Text → Option Text
  pub scope_metrics : List (List Metric)

-- `int64(x.Len())`
abbrev pub int_length {ℓ} : {A : Type ℓ} → List A → ℕ
int_length xs = length xs % word

-- the loop of `countResourceLogRecords` and `countResourceSpans`
unfoldable pub count_scopes : ℕ → List (List ℕ) → ℕ
count_scopes count [] = count
count_scopes count (records ∷ scopes) = count_scopes (int_add count (int_length records)) scopes

unfoldable pub count_resource_log_records : ResourceLogs → ℕ
unfolding count_scopes
count_resource_log_records rl = count_scopes 0 rl.scope_logs

unfoldable pub count_resource_spans : ResourceSpans → ℕ
unfolding count_scopes
count_resource_spans rs = count_scopes 0 rs.scope_spans

-- the switch over the type of a metric
unfoldable pub count_metric : ℕ → Metric → ℕ
count_metric count (gauge points) = int_add count (int_length points)
count_metric count (sum points) = int_add count (int_length points)
count_metric count (histogram points) = int_add count (int_length points)
count_metric count (exponential_histogram points) = int_add count (int_length points)
count_metric count (summary points) = int_add count (int_length points)
count_metric count empty = count

unfoldable pub count_metrics : ℕ → List Metric → ℕ
unfolding count_metric
count_metrics count [] = count
count_metrics count (m ∷ ms) = count_metrics (count_metric count m) ms

unfoldable pub count_scope_metrics : ℕ → List (List Metric) → ℕ
unfolding count_metrics
count_scope_metrics count [] = count
count_scope_metrics count (ms ∷ scopes) = count_scope_metrics (count_metrics count ms) scopes

unfoldable pub count_resource_metric_points : ResourceMetrics → ℕ
unfolding count_scope_metrics
count_resource_metric_points rm = count_scope_metrics 0 rm.scope_metrics

-- the loop of `countLogRecords`, `countSpans` and `countMetricPoints`
module _ {ℓ} {R : Type ℓ} (count_resource : R → ℕ) where
  unfoldable pub count_each : ℕ → List R → ℕ
  count_each count [] = count
  count_each count (r ∷ rs) = count_each (int_add count (count_resource r)) rs

unfoldable pub count_log_records : List ResourceLogs → ℕ
unfolding count_each count_resource_log_records
count_log_records ld = count_each count_resource_log_records 0 ld

unfoldable pub count_spans : List ResourceSpans → ℕ
unfolding count_each count_resource_spans
count_spans td = count_each count_resource_spans 0 td

unfoldable pub count_metric_points : List ResourceMetrics → ℕ
unfolding count_each count_resource_metric_points
count_metric_points md = count_each count_resource_metric_points 0 md
