-- ===== src/Pdata/Counts.antt =====
-- The counts are the numbers of records, as 64-bit words.
use exportercreator.Prelude.{
  ℕ, ◌+◌, ◌%◌, ◌≡◌, ap, ◌∙◌, arith, List, [], ◌∷◌, length, sum_by, word, int_add,
}
use exportercreator.Pdata.{
  ResourceLogs, ResourceSpans, ResourceMetrics, Metric, gauge, sum, histogram,
  exponential_histogram, summary, empty, count_scopes, count_resource_log_records,
  count_resource_spans, count_metric, count_metrics, count_scope_metrics,
  count_resource_metric_points, count_each, count_log_records, count_spans, count_metric_points,
}

abbrev pub records : List (List ℕ) → ℕ
records = sum_by (λ (rs : List ℕ). length rs)

abbrev pub points : Metric → ℕ
points (gauge ps) = length ps
points (sum ps) = length ps
points (histogram ps) = length ps
points (exponential_histogram ps) = length ps
points (summary ps) = length ps
points empty = 0

-- the data points of a resource
abbrev pub points_of : ResourceMetrics → ℕ
points_of rm = sum_by (λ (ms : List Metric). sum_by points ms) rm.scope_metrics

count_scopes-sum :
    (n : ℕ) (scopes : List (List ℕ)) → count_scopes (n % word) scopes ≡ (n + records scopes) % word
unfolding count_scopes int_add
count_scopes-sum n [] = ap (λ k. k % word) (omega arith)
count_scopes-sum n (rs ∷ scopes) =
    ap (λ k. count_scopes k scopes) (omega arith)
    ∙ count_scopes-sum (n + length rs) scopes
    ∙ ap (λ k. k % word) (omega arith)

count_metric-sum : (n : ℕ) (m : Metric) → count_metric (n % word) m ≡ (n + points m) % word
unfolding count_metric int_add
count_metric-sum n (gauge ps) = omega arith
count_metric-sum n (sum ps) = omega arith
count_metric-sum n (histogram ps) = omega arith
count_metric-sum n (exponential_histogram ps) = omega arith
count_metric-sum n (summary ps) = omega arith
count_metric-sum n empty = ap (λ k. k % word) (omega arith)

count_metrics-sum :
    (n : ℕ) (ms : List Metric) → count_metrics (n % word) ms ≡ (n + sum_by points ms) % word
unfolding count_metrics
count_metrics-sum n [] = ap (λ k. k % word) (omega arith)
count_metrics-sum n (m ∷ ms) =
    ap (λ k. count_metrics k ms) (count_metric-sum n m)
    ∙ count_metrics-sum (n + points m) ms
    ∙ ap (λ k. k % word) (omega arith)

count_scope_metrics-sum :
    (n : ℕ) (scopes : List (List Metric))
    → count_scope_metrics (n % word) scopes
      ≡ (n + sum_by (λ (ms : List Metric). sum_by points ms) scopes) % word
unfolding count_scope_metrics
count_scope_metrics-sum n [] = ap (λ k. k % word) (omega arith)
count_scope_metrics-sum n (ms ∷ scopes) =
    ap (λ k. count_scope_metrics k scopes) (count_metrics-sum n ms)
    ∙ count_scope_metrics-sum (n + sum_by points ms) scopes
    ∙ ap (λ k. k % word) (omega arith)

count_each-total :
    {R : Type 0} (count size : R → ℕ)
    → ((r : R) → count r ≡ size r % word)
    → (n : ℕ) (rs : List R) → count_each count (n % word) rs ≡ (n + sum_by size rs) % word
unfolding count_each int_add
count_each-total count size h n [] = ap (λ k. k % word) (omega arith)
count_each-total count size h n (r ∷ rs) =
    ap (λ k. count_each count k rs) (omega (arith, h r))
    ∙ count_each-total count size h (n + size r) rs
    ∙ ap (λ k. k % word) (omega arith)

-- The three counts of a batch are the numbers of its log records, its spans and its data points of
-- metrics of every type, as 64-bit words.
pub counts_lem :
    (ld : List ResourceLogs) (td : List ResourceSpans) (md : List ResourceMetrics)
    → (count_log_records ld ≡ sum_by (λ (rl : ResourceLogs). records rl.scope_logs) ld % word)
      × (count_spans td ≡ sum_by (λ (rs : ResourceSpans). records rs.scope_spans) td % word)
      × (count_metric_points md ≡ sum_by points_of md % word)
unfolding count_log_records count_spans count_metric_points count_resource_log_records
    count_resource_spans count_resource_metric_points
counts_lem ld td md = (
  count_each-total _ (λ (rl : ResourceLogs). records rl.scope_logs)
        (λ rl. count_scopes-sum 0 rl.scope_logs ∙ ap (λ k. k % word) (omega arith)) 0 ld
      ∙ ap (λ k. k % word) (omega arith),
  count_each-total _ (λ (rs : ResourceSpans). records rs.scope_spans)
        (λ rs. count_scopes-sum 0 rs.scope_spans ∙ ap (λ k. k % word) (omega arith)) 0 td
      ∙ ap (λ k. k % word) (omega arith),
  count_each-total _ points_of
        (λ rm. count_scope_metrics-sum 0 rm.scope_metrics ∙ ap (λ k. k % word) (omega arith)) 0 md
      ∙ ap (λ k. k % word) (omega arith),
)
