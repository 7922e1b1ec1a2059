-- ===== src/Pdata/Tests.antt =====
-- The counts at a concrete batch.
use exportercreator.Prelude.{◌≡◌, refl, List, [], ◌∷◌, none, sum_by, word, ◌%◌, int_add}
use exportercreator.Pdata.{
  ResourceLogs, ResourceSpans, ResourceMetrics, gauge, summary, empty, count_log_records,
  count_spans, count_metric_points,
}
use exportercreator.Pdata.Counts.{records, points_of, counts_lem}

abbrev some_logs : List ResourceLogs
some_logs = (record { attributes = λ name. none; scope_logs = (1 ∷ 2 ∷ []) ∷ (3 ∷ []) ∷ [] }) ∷ []

abbrev some_metrics : List ResourceMetrics
some_metrics =
    (record {
      attributes = λ name. none;
      scope_metrics = (gauge (1 ∷ 2 ∷ []) ∷ empty ∷ summary (3 ∷ []) ∷ []) ∷ [];
    })
    ∷ []

points_count : count_metric_points some_metrics ≡ 3
unfolding count_metric_points int_add
points_count = refl

counts_lem_example :
    (count_log_records some_logs
      ≡ sum_by (λ (rl : ResourceLogs). records rl.scope_logs) some_logs % word)
    × (count_spans [] ≡ sum_by (λ (rs : ResourceSpans). records rs.scope_spans) [] % word)
    × (count_metric_points some_metrics ≡ sum_by points_of some_metrics % word)
counts_lem_example = counts_lem some_logs [] some_metrics
