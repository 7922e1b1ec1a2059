-- ===== src/Consume/Metrics.antt =====
-- ConsumeMetrics where it is written differently from the other two: it guards against a group whose
-- exporter takes no metrics, and asks whether there are default exporters first. Without telemetry,
-- it logs what it cannot count, which leaves the result as it is.
use exportercreator.Prelude.{
  ℕ, Bool, false, ◌||◌, not, List, [], ◌∷◌, ◌++◌, Option, none, some, if◌then◌else◌, ltb, length,
  Text, int_add, is_positive,
}
use exportercreator.Prelude.GoMap.{GoMap}
use exportercreator.Component.{metrics}
use exportercreator.Wrapped.{Exporter, wrapped, static, Warnings}
use exportercreator.Pdata.{count_each}
use exportercreator.Consume.{
  Delivery, Sending, Consumed, group, start_grouping, send, send_defaults,
}

-- The type switch of the sending loop.
unfoldable pub metrics_consumer : ℕ → Exporter → Option ℕ
metrics_consumer exp (wrapped we) = we.metrics_exporter
metrics_consumer exp (static handles) = if handles metrics then some exp else none

module _ {R : Type 0} (exporter_at : ℕ → Exporter)
    (consume : List (Delivery R) → ℕ → List R → Option Text) where
  -- One group, where nothing is sent to an exporter that takes no metrics, and it is dropped with a
  -- warning.
  unfoldable pub send_metrics_to : ℕ → Option ℕ → List R → List ℕ × Sending R → List ℕ × Sending R
  unfolding send
  send_metrics_to exp none batch (dropped, s) = (dropped ++ exp ∷ [], s)
  send_metrics_to exp (some consumer) batch (dropped, s) =
      (dropped, send metrics exporter_at consume consumer batch s)

  unfoldable pub send_metrics_groups : GoMap ℕ (List R) → List ℕ × Sending R → List ℕ × Sending R
  unfolding send_metrics_to metrics_consumer
  send_metrics_groups [] s = s
  send_metrics_groups ((exp, batch) ∷ groups) s =
      send_metrics_groups groups
        (send_metrics_to exp (metrics_consumer exp (exporter_at exp)) batch s)

  module _ (count : R → ℕ) where
    -- the branch with default exporters, for a batch that is not empty
    unfoldable pub ask_defaults : List ℕ → List R → ℕ → Sending R → ℕ × Sending R
    ask_defaults defaults batch nonroutable s =
        let ((has, succeeded), s') =
          send_defaults metrics exporter_at consume defaults batch (false, false) s in
        (
          if not has || not succeeded
              then int_add nonroutable (count_each count 0 batch)
              else nonroutable,
          s',
        )

    unfoldable pub route_unmatched_metrics : List ℕ → List R → ℕ → Sending R → ℕ × Sending R
    unfolding ask_defaults
    route_unmatched_metrics defaults [] nonroutable s = (nonroutable, s)
    route_unmatched_metrics defaults (r ∷ rs) nonroutable s =
        if ltb 0 (length defaults)
        then ask_defaults defaults (r ∷ rs) nonroutable s
        else (int_add nonroutable (count_each count 0 (r ∷ rs)), s)

    unfoldable pub recorded_metrics : Bool → ℕ → ℕ
    recorded_metrics telemetry nonroutable =
        if is_positive nonroutable then (if telemetry then nonroutable else 0) else 0

    -- `ConsumeMetrics`, with the exporters whose groups were dropped
    unfoldable pub consume_metrics_batch :
        (R → List ℕ) → Bool → List ℕ → List R → Warnings → List ℕ × Consumed R
    unfolding send_metrics_groups route_unmatched_metrics recorded_metrics
    consume_metrics_batch matched telemetry defaults batch w =
        let g = group metrics exporter_at count matched batch (start_grouping w) in
        let (dropped, s) =
          send_metrics_groups g.groups ([], record { deliveries = []; errs = [] }) in
        let (nonroutable, s') = route_unmatched_metrics defaults g.unmatched g.nonroutable s in
        (
          dropped,
          record {
            sending = s';
            recorded = recorded_metrics telemetry nonroutable;
            warnings = g.warnings;
          },
        )
