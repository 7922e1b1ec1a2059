-- ===== src/Consume/Same.antt =====
-- ConsumeMetrics does with metrics what the other two do with their signals: its guards are never
-- reached.
use exportercreator.Prelude.{
  ℕ, ◌≡◌, refl, ap, arith, Bool, true, false, Bool-cases, inl, inr, List, [], ◌∷◌, All, Option,
  none, some, if◌then◌else◌, ltb, length, nat_Eq, ◌==◌, Text, int_add,
}
use exportercreator.Prelude.GoMap.{GoMap, insert}
use exportercreator.Prelude.MultiMap.{push}
use exportercreator.Component.{Signal, metrics}
use exportercreator.Wrapped.{
  Exporter, wrapped, static, consumer_of, Warnings, warn_unsupported_signal,
}
use exportercreator.Pdata.{count_each}
use exportercreator.Consume.{
  Grouping, Delivery, Sending, offer, count_unaccepted, group_resource, group, start_grouping, send,
  send_to, send_groups, route_unmatched, recorded_count, consume_batch,
}
use exportercreator.Consume.Metrics.{
  metrics_consumer, send_metrics_to, send_metrics_groups, ask_defaults, route_unmatched_metrics,
  recorded_metrics, consume_metrics_batch,
}

module _ {R : Type 0} (signal : Signal) (exporter_at : ℕ → Exporter) (count : R → ℕ) where
  -- Every group has an exporter that handles the signal.
  abbrev pub Takes : ℕ × List R → Type 0
  Takes p = (consumer : ℕ) × (consumer_of signal p.0 (exporter_at p.0) ≡ some consumer)

  insert-All :
      (exp : ℕ) (batch : List R) (groups : GoMap ℕ (List R))
      → Takes (exp, batch)
      → All Takes groups
      → All Takes (insert exp batch groups)
  unfolding insert
  insert-All exp batch [] t h = (t, tt)
  insert-All exp batch ((e, b) ∷ groups) t h = elim (Bool-cases (e == exp)) [
    | inl same ↦ rw same (h.0, h.1)
    | inr other ↦ rw other (h.0, insert-All exp batch groups t h.1)
  ]

  offer-All :
      (r : R) (exps : List ℕ) (accepted : Bool) (g : Grouping R)
      → All Takes g.groups
      → All Takes (offer signal exporter_at r exps accepted g).1.groups
  unfolding offer
  offer-All r [] accepted g h = h
  offer-All r (e ∷ es) accepted g h =
      by (consumer_of signal e (exporter_at e)) refl (λ a g' h'. offer-All r es a g' h')
    where
      by :
          (o : Option ℕ)
          → consumer_of signal e (exporter_at e) ≡ o
          → ((a : Bool) (g' : Grouping R)
              → All Takes g'.groups
              → All Takes (offer signal exporter_at r es a g').1.groups)
          → All Takes
              (elim o as (λ x. Bool × Grouping R) [
                | none ↦ offer signal exporter_at r es accepted (record g {
                  warnings = warn_unsupported_signal e (exporter_at e) signal g.warnings;
                })
                | some consumer ↦
                    offer signal exporter_at r es true (record g { groups = push e r g.groups })
              ]).1.groups
      by none q ih = ih accepted _ h
      by (some c) q ih = ih true _ (insert-All e _ g.groups (c, q) h)

  count_unaccepted-groups :
      (r : R) (result : Bool × Grouping R)
      → (count_unaccepted signal exporter_at count r result).groups ≡ result.1.groups
  unfolding count_unaccepted
  count_unaccepted-groups r (true, g) = refl
  count_unaccepted-groups r (false, g) = refl

  group_resource-All :
      (r : R) (exps : List ℕ) (g : Grouping R)
      → All Takes g.groups
      → All Takes (group_resource signal exporter_at count r exps g).groups
  unfolding group_resource
  group_resource-All r [] g h = h
  group_resource-All r (exp ∷ exps) g h =
      rw (count_unaccepted-groups r (offer signal exporter_at r (exp ∷ exps) false g))
        (offer-All r (exp ∷ exps) false g h)

  pub group-All :
      (matched : R → List ℕ) (batch : List R) (g : Grouping R)
      → All Takes g.groups
      → All Takes (group signal exporter_at count matched batch g).groups
  unfolding group
  group-All matched [] g h = h
  group-All matched (r ∷ rs) g h = group-All matched rs _ (group_resource-All r (matched r) g h)

metrics_consumer-eq : (exp : ℕ) (x : Exporter) → metrics_consumer exp x ≡ consumer_of metrics exp x
unfolding metrics_consumer consumer_of
metrics_consumer-eq exp (wrapped we) = refl
metrics_consumer-eq exp (static handles) = refl

module _ {R : Type 0} (exporter_at : ℕ → Exporter) (count : R → ℕ)
    (consume : List (Delivery R) → ℕ → List R → Option Text) where
  send_metrics_groups-eq :
      (groups : GoMap ℕ (List R)) (s : Sending R)
      → All (Takes metrics exporter_at count) groups
      → send_metrics_groups exporter_at consume groups ([], s)
        ≡ ([], send_groups metrics exporter_at consume groups s)
  unfolding send_metrics_groups send_groups send_metrics_to send_to
  send_metrics_groups-eq [] s h = refl
  send_metrics_groups-eq ((exp, batch) ∷ groups) s ((consumer, q), h) =
      rw (metrics_consumer-eq exp (exporter_at exp), q)
        (send_metrics_groups-eq groups (send metrics exporter_at consume consumer batch s) h)

  route_unmatched_metrics-eq :
      (defaults : List ℕ) (batch : List R) (n : ℕ) (s : Sending R)
      → route_unmatched_metrics exporter_at consume count defaults batch n s
        ≡ route_unmatched metrics exporter_at count consume defaults batch n s
  unfolding route_unmatched_metrics route_unmatched ask_defaults
  route_unmatched_metrics-eq defaults [] n s = refl
  route_unmatched_metrics-eq [] (r ∷ rs) n s = refl
  route_unmatched_metrics-eq (e ∷ es) (r ∷ rs) n s =
      let some_default : ltb 0 (length (e ∷ es)) ≡ true = ground arith in
      ap
        (λ b.
          if b
          then ask_defaults exporter_at consume count (e ∷ es) (r ∷ rs) n s
          else (int_add n (count_each count 0 (r ∷ rs)), s))
        some_default

  recorded_metrics-eq :
      (telemetry : Bool) (n : ℕ)
      → recorded_metrics exporter_at consume count telemetry n ≡ recorded_count telemetry n
  unfolding recorded_metrics recorded_count
  recorded_metrics-eq telemetry n = ground arith

  -- ConsumeMetrics drops no group, and otherwise comes to the same as the code that ConsumeLogs and
  -- ConsumeTraces share.
  pub consume_metrics_batch-eq :
      (matched : R → List ℕ) (telemetry : Bool) (defaults : List ℕ) (batch : List R) (w : Warnings)
      → consume_metrics_batch exporter_at consume count matched telemetry defaults batch w
        ≡ ([], consume_batch metrics exporter_at count consume matched telemetry defaults batch w)
  unfolding consume_metrics_batch consume_batch start_grouping
  consume_metrics_batch-eq matched telemetry defaults batch w =
      let g0 : Grouping R = start_grouping w in
      let g = group metrics exporter_at count matched batch g0 in
      rw (
        send_metrics_groups-eq g.groups (record { deliveries = []; errs = [] })
            (group-All metrics exporter_at count matched batch g0 tt),
        route_unmatched_metrics-eq,
        recorded_metrics-eq,
      )
