-- ===== src/Consume/Batch.antt =====
-- A whole call of ConsumeLogs, ConsumeMetrics or ConsumeTraces.
use exportercreator.Prelude.{
  ℕ, ◌+◌, ◌%◌, ◌≡◌, refl, ap, ◌∙◌, arith, Bool, List, [], ◌++◌, Option, if◌then◌else◌, nat_Eq, Text,
  word, sum_by,
}
use exportercreator.Prelude.GoMap.{GoMap, lookup}
use exportercreator.Prelude.MultiMap.{slice_at}
use exportercreator.Component.{Signal}
use exportercreator.Wrapped.{Exporter, Warnings}
use exportercreator.Consume.{
  Grouping, Delivery, Sending, Consumed, group, start_grouping, send_groups, recorded_count,
  consume_batch,
}
use exportercreator.Consume.Groups.{IsSplit, selected, unmatched_of, lost, group-Grouped}
use exportercreator.Consume.Sent.{addressed, failures, some_accepted, sends, send_groups-SentMore}
use exportercreator.Consume.Defaults.{for_defaults, route_unmatched-Routed}

module _ {R : Type 0} (signal : Signal) (exporter_at : ℕ → Exporter) (count : R → ℕ)
    (matched : R → List ℕ) (consume : List (Delivery R) → ℕ → List R → Option Text) where
  -- What a call does with a batch. `groups` has for each exporter its part of the batch, once and not
  -- empty. All of them are sent, in one call each, then what the router names no exporter for goes to the default exporters; the errors
  -- are those that the consumers return; and what is counted are the records of the resources whose
  -- exporters do not handle the signal, and of the unmatched ones unless a default exporter accepts
  -- them.
  pub record Accounts (telemetry : Bool) (defaults : List ℕ) (batch : List R) (c : Consumed R)
      : Type 0 where
    pub groups : GoMap ℕ (List R)
    pub to_groups : List (Delivery R)
    pub to_rest : List (Delivery R)
    pub split : IsSplit signal count exporter_at matched groups
    pub parts :
        (exp : ℕ)
        → slice_at (lookup exp groups) ≡ selected signal count exporter_at matched exp batch
    pub sent : c.sending.deliveries ≡ to_groups ++ to_rest
    pub grouped : addressed to_groups ≡ sends signal exporter_at consume groups
    pub defaulted :
        addressed to_rest
        ≡ for_defaults signal exporter_at defaults
            (unmatched_of signal count exporter_at matched batch)
    pub errors : c.sending.errs ≡ failures to_groups ++ failures to_rest
    pub counted :
        c.recorded
        ≡ recorded_count telemetry (
            (sum_by (lost signal count exporter_at matched) batch
              + (if some_accepted to_rest
                  then 0
                  else sum_by count (unmatched_of signal count exporter_at matched batch)))
            % word)

  -- Every call accounts for the whole of its batch. Each exporter that is named and handles the signal
  -- gets, in one call of its consumer, the resources for which it is named, and nothing else is sent
  -- but what no exporter is named for, to the default exporters that handle the signal; the errors
  -- are those of the consumers, in order; and with telemetry on, what is counted are the records of
  -- the resources whose exporters do not handle the signal and of those that no default exporter
  -- accepts, as a 64-bit word.
  pub consume_batch-Accounts :
      (telemetry : Bool) (defaults : List ℕ) (batch : List R) (w : Warnings)
      → Accounts telemetry defaults batch
          (consume_batch signal exporter_at count consume matched telemetry defaults batch w)
  unfolding consume_batch start_grouping lookup
  consume_batch-Accounts telemetry defaults batch w =
      let g0 : Grouping R = start_grouping w in
      let g = group signal exporter_at count matched batch g0 in
      let p = group-Grouped signal count exporter_at matched batch 0 g0 refl in
      let s0 : Sending R = record { deliveries = []; errs = [] } in
      let (ds, q) = send_groups-SentMore signal exporter_at consume g.groups s0 in
      let s = send_groups signal exporter_at consume g.groups s0 in
      let n = sum_by (lost signal count exporter_at matched) batch in
      let (es, r) =
        route_unmatched-Routed signal exporter_at count consume defaults g.unmatched g.nonroutable n
          s (p.counted ∙ ap (λ k. k % word) (omega arith)) in
      record {
        groups = g.groups;
        to_groups = ds;
        to_rest = es;
        split = p.splits (record { distinct = tt; filled = tt });
        parts = λ exp. p.grouping exp;
        sent = r.sent.behind ∙ ap (λ xs. xs ++ es) q.behind;
        grouped = q.to;
        defaulted = r.sent.to ∙ ap (for_defaults signal exporter_at defaults) p.left_over;
        errors = r.sent.errors ∙ ap (λ xs. xs ++ failures es) q.errors;
        counted = ap (recorded_count telemetry) (
            r.counted
            ∙ ap (λ rs. (n + (if some_accepted es then 0 else sum_by count rs)) % word)
                p.left_over);
      }
