-- ===== src/Creator/Consuming.antt =====
-- ConsumeLogs, ConsumeMetrics and ConsumeTraces of a creator. Other goroutines may change the router
-- between two resources of a batch, so each resource comes with the state that Route meets.
use exportercreator.Prelude.{ℕ, List, [], Option, none, some, Text, ◌≡◌, ap}
use exportercreator.Value.{Value}
use exportercreator.Component.{logs, metrics, traces}
use exportercreator.Router.{TelemetryRouter, route}
use exportercreator.Wrapped.{Exporter, Warnings}
use exportercreator.Pdata.{
  ResourceLogs, ResourceMetrics, ResourceSpans, count_resource_log_records,
  count_resource_metric_points, count_resource_spans,
}
use exportercreator.Consume.{Delivery, Consumed, consume_batch}
use exportercreator.Consume.Batch.{Accounts, consume_batch-Accounts}
use exportercreator.Consume.Metrics.{consume_metrics_batch}
use exportercreator.Consume.Same.{consume_metrics_batch-eq}
use exportercreator.Creator.{ExporterCreator}

-- A resource of a batch, with the state of the router when Route is called for it.
pub record AtRoute (R : Type 0) : Type 0 where
  pub resource : R
  pub router : TelemetryRouter

-- the early return of a creator without a router
abbrev pub nothing_consumed : {R : Type 0} → Warnings → Consumed R
nothing_consumed w = record {
  sending = record { deliveries = []; errs = [] };
  recorded = 0;
  warnings = w;
}

module _ (composite : Value → Text) (exporter_at : ℕ → Exporter) (ec : ExporterCreator) where
  unfoldable pub consume_logs :
      (List (Delivery (AtRoute ResourceLogs)) → ℕ → List (AtRoute ResourceLogs) → Option Text)
      → List (AtRoute ResourceLogs)
      → Warnings
      → Consumed (AtRoute ResourceLogs)
  consume_logs consume ld w = elim ec.router [
    | none ↦ nothing_consumed w
    | some r ↦
        consume_batch logs exporter_at (λ a. count_resource_log_records a.resource) consume
          (λ a. route composite a.resource.attributes a.router) ec.telemetry ec.default_exporters ld
          w
  ]

  unfoldable pub consume_metrics :
      (List (Delivery (AtRoute ResourceMetrics)) → ℕ → List (AtRoute ResourceMetrics) → Option Text)
      → List (AtRoute ResourceMetrics)
      → Warnings
      → Consumed (AtRoute ResourceMetrics)
  consume_metrics consume md w = elim ec.router [
    | none ↦ nothing_consumed w
    | some r ↦
        (consume_metrics_batch exporter_at consume (λ a. count_resource_metric_points a.resource)
          (λ a. route composite a.resource.attributes a.router) ec.telemetry ec.default_exporters md
          w).1
  ]

  unfoldable pub consume_traces :
      (List (Delivery (AtRoute ResourceSpans)) → ℕ → List (AtRoute ResourceSpans) → Option Text)
      → List (AtRoute ResourceSpans)
      → Warnings
      → Consumed (AtRoute ResourceSpans)
  consume_traces consume td w = elim ec.router [
    | none ↦ nothing_consumed w
    | some r ↦
        consume_batch traces exporter_at (λ a. count_resource_spans a.resource) consume
          (λ a. route composite a.resource.attributes a.router) ec.telemetry ec.default_exporters td
          w
  ]

  -- The three entry points account for their batches.
  abbrev pub AccountsForAll :
      (List (Delivery (AtRoute ResourceLogs)) → ℕ → List (AtRoute ResourceLogs) → Option Text)
      → (List (Delivery (AtRoute ResourceMetrics))
          → ℕ
          → List (AtRoute ResourceMetrics)
          → Option Text)
      → (List (Delivery (AtRoute ResourceSpans)) → ℕ → List (AtRoute ResourceSpans) → Option Text)
      → List (AtRoute ResourceLogs)
      → List (AtRoute ResourceMetrics)
      → List (AtRoute ResourceSpans)
      → Warnings
      → Type 0
  AccountsForAll on_logs on_metrics on_spans ld md td w =
      Accounts logs exporter_at (λ a. count_resource_log_records a.resource)
        (λ a. route composite a.resource.attributes a.router) on_logs ec.telemetry
        ec.default_exporters ld (consume_logs on_logs ld w)
      × Accounts metrics exporter_at (λ a. count_resource_metric_points a.resource)
          (λ a. route composite a.resource.attributes a.router) on_metrics ec.telemetry
          ec.default_exporters md (consume_metrics on_metrics md w)
      × Accounts traces exporter_at (λ a. count_resource_spans a.resource)
          (λ a. route composite a.resource.attributes a.router) on_spans ec.telemetry
          ec.default_exporters td (consume_traces on_spans td w)

  -- A creator with a router, in the entry point that is written differently.
  consume_metrics-eq :
      (r : TelemetryRouter)
      (consume : List (Delivery (AtRoute ResourceMetrics))
        → ℕ
        → List (AtRoute ResourceMetrics)
        → Option Text)
      (md : List (AtRoute ResourceMetrics)) (w : Warnings)
      → ec.router ≡ some r
      → consume_metrics consume md w
        ≡ consume_batch metrics exporter_at
            (λ a. count_resource_metric_points a.resource)
            consume
            (λ a. route composite a.resource.attributes a.router)
            ec.telemetry
            ec.default_exporters
            md
            w
  unfolding consume_metrics
  consume_metrics-eq r consume md w h = by ec.router h
    where
      by :
          (o : Option TelemetryRouter)
          → o ≡ some r
          → (elim o as (λ x. Consumed (AtRoute ResourceMetrics)) [
            | none ↦ nothing_consumed w
            | some r' ↦
                (consume_metrics_batch exporter_at consume
                  (λ a. count_resource_metric_points a.resource)
                  (λ a. route composite a.resource.attributes a.router)
                  ec.telemetry
                  ec.default_exporters
                  md
                  w).1
          ])
            ≡ consume_batch metrics exporter_at
                (λ a. count_resource_metric_points a.resource)
                consume
                (λ a. route composite a.resource.attributes a.router)
                ec.telemetry
                ec.default_exporters
                md
                w
      by none q = absurd cc
      by (some r') q =
          ap (λ p. p.1)
            (consume_metrics_batch-eq exporter_at (λ a. count_resource_metric_points a.resource)
              consume (λ a. route composite a.resource.attributes a.router) ec.telemetry
              ec.default_exporters md w)

  -- On a creator with a router, ConsumeLogs, ConsumeMetrics and ConsumeTraces each account for the
  -- whole of their batch, each with its own count of records, and for each resource the exporters
  -- that the router names in the state that it has when the resource is routed, whatever others do
  -- to the router between two resources.
  pub creator-AccountsForAll :
      (r : TelemetryRouter)
      (on_logs : List (Delivery (AtRoute ResourceLogs))
        → ℕ
        → List (AtRoute ResourceLogs)
        → Option Text)
      (on_metrics : List (Delivery (AtRoute ResourceMetrics))
        → ℕ
        → List (AtRoute ResourceMetrics)
        → Option Text)
      (on_spans : List (Delivery (AtRoute ResourceSpans))
        → ℕ
        → List (AtRoute ResourceSpans)
        → Option Text)
      (ld : List (AtRoute ResourceLogs)) (md : List (AtRoute ResourceMetrics))
      (td : List (AtRoute ResourceSpans)) (w : Warnings)
      → ec.router ≡ some r
      → AccountsForAll on_logs on_metrics on_spans ld md td w
  unfolding consume_logs consume_traces
  creator-AccountsForAll r on_logs on_metrics on_spans ld md td w h = (
    rw h (
        consume_batch-Accounts logs exporter_at _ _ on_logs ec.telemetry ec.default_exporters ld w),
    rw (consume_metrics-eq r on_metrics md w h) (
        consume_batch-Accounts metrics exporter_at _ _ on_metrics ec.telemetry ec.default_exporters
          md w),
    rw h (
        consume_batch-Accounts traces exporter_at _ _ on_spans ec.telemetry ec.default_exporters td
          w),
  )
