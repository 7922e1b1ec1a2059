-- ===== src/Consume.antt =====
-- ConsumeLogs, ConsumeMetrics and ConsumeTraces of exporter.go: a batch of resources is grouped by
-- the exporters that the router names, each group is sent to its exporter, and what no exporter
-- takes goes to the default exporters or is counted. `matched` is what the router returns for a
-- resource, `exporter_at` the component behind a reference, and `consume` what a consumer answers,
-- which may depend on all that was sent before.
mod Groups
mod Sent
mod Defaults
pub mod Batch
pub mod Metrics
pub mod Same
pub mod WarnOnce
pub mod Tests
use exportercreator.Prelude.{
  ℕ, Bool, true, false, ◌&&◌, ◌||◌, not, List, [], ◌∷◌, ◌++◌, Option, none, some, if◌then◌else◌,
  ltb, length, nat_Eq, Text, int_add, is_positive,
}
use exportercreator.Prelude.GoMap.{GoMap, lookup, insert}
use exportercreator.Prelude.MultiMap.{push}
use exportercreator.Component.{Signal, logs, metrics, traces}
use exportercreator.Wrapped.{
  Exporter, wrapped, static, exporter_for, consumer_of, handles_itself, Warnings,
  warn_unsupported_signal,
}
use exportercreator.Pdata.{count_each}

-- The local variables of the grouping loop.
pub record Grouping (R : Type 0) : Type 0 where
  pub groups : GoMap ℕ (List R)
  pub unmatched : List R
  pub nonroutable : ℕ
  pub warnings : Warnings

-- A batch that was sent to a consumer, with the error it returned.
pub record Delivery (R : Type 0) : Type 0 where
  pub consumer : ℕ
  pub batch : List R
  pub answer : Option Text

pub record Sending (R : Type 0) : Type 0 where
  pub deliveries : List (Delivery R)
  pub errs : List Text

-- What a batch leaves behind: the batches sent, the errors returned (none for success), the count
-- that is added to the non-routable metric, and the warnings so far.
pub record Consumed (R : Type 0) : Type 0 where
  pub sending : Sending R
  pub recorded : ℕ
  pub warnings : Warnings

-- the consumer behind a reference, if it handles the signal
abbrev pub handler_of : Signal → (ℕ → Exporter) → ℕ → Option ℕ
handler_of signal exporter_at exp = consumer_of signal exp (exporter_at exp)

module _ {R : Type 0} (signal : Signal) (exporter_at : ℕ → Exporter) where
  -- The inner loop: one resource for the exporters that it matched, and whether one accepted it.
  unfoldable pub offer : R → List ℕ → Bool → Grouping R → Bool × Grouping R
  unfolding warn_unsupported_signal
  offer r [] accepted g = (accepted, g)
  offer r (exp ∷ exps) accepted g = elim (handler_of signal exporter_at exp) [
    | none ↦
        offer r exps accepted
          (record g { warnings = warn_unsupported_signal exp (exporter_at exp) signal g.warnings })
    | some consumer ↦ offer r exps true (record g { groups = push exp r g.groups })
  ]

module _ {R : Type 0} (signal : Signal) (exporter_at : ℕ → Exporter) (count : R → ℕ) where
  -- What follows the inner loop.
  unfoldable pub count_unaccepted : R → Bool × Grouping R → Grouping R
  count_unaccepted r (accepted, g) =
      if accepted then g else record g { nonroutable = int_add g.nonroutable (count r) }

  unfoldable pub group_resource : R → List ℕ → Grouping R → Grouping R
  unfolding offer count_unaccepted
  group_resource r [] g = record g { unmatched = g.unmatched ++ r ∷ [] }
  group_resource r (exp ∷ exps) g =
      count_unaccepted r (offer signal exporter_at r (exp ∷ exps) false g)

  unfoldable pub group : (R → List ℕ) → List R → Grouping R → Grouping R
  unfolding group_resource
  group matched [] g = g
  group matched (r ∷ rs) g = group matched rs (group_resource r (matched r) g)

unfoldable pub start_grouping : {R : Type 0} → Warnings → Grouping R
start_grouping w = record { groups = []; unmatched = []; nonroutable = 0; warnings = w }

module _ {R : Type 0} (signal : Signal) (exporter_at : ℕ → Exporter)
    (consume : List (Delivery R) → ℕ → List R → Option Text) where
  -- one call of a consumer
  unfoldable pub send : ℕ → List R → Sending R → Sending R
  send consumer batch s =
      let answer = consume s.deliveries consumer batch in
      record {
        deliveries =
            s.deliveries ++ (record { consumer = consumer; batch = batch; answer = answer }) ∷ [];
        errs = elim answer [ none ↦ s.errs | some message ↦ s.errs ++ message ∷ [] ];
      }

  unfoldable pub send_to : Option ℕ → List R → Sending R → Sending R
  unfolding send
  send_to none batch s = s
  send_to (some consumer) batch s = send consumer batch s

  -- the loop over `exportersByComponent`
  unfoldable pub send_groups : GoMap ℕ (List R) → Sending R → Sending R
  unfolding send_to
  send_groups [] s = s
  send_groups ((exp, batch) ∷ groups) s =
      send_groups groups (send_to (handler_of signal exporter_at exp) batch s)

  -- The loop over the default exporters: whether one handles the signal, and whether one succeeded.
  unfoldable pub send_defaults :
      List ℕ → List R → Bool × Bool → Sending R → (Bool × Bool) × Sending R
  unfolding send
  send_defaults [] batch flags s = (flags, s)
  send_defaults (exp ∷ exps) batch (has, succeeded) s =
      let answer = consume s.deliveries exp batch in
      let after = elim answer as (λ a. Bool) [ none ↦ true | some message ↦ succeeded ] in
      if handles_itself signal (exporter_at exp)
      then send_defaults exps batch (true, after) (send exp batch s)
      else send_defaults exps batch (has, succeeded) s

unfoldable pub recorded_count : Bool → ℕ → ℕ
recorded_count telemetry nonroutable =
    if is_positive nonroutable && telemetry then nonroutable else 0

module _ {R : Type 0} (signal : Signal) (exporter_at : ℕ → Exporter) (count : R → ℕ)
    (consume : List (Delivery R) → ℕ → List R → Option Text) where
  -- The unmatched part of a batch: the count so far, with the unmatched records if no default
  -- exporter took them.
  unfoldable pub route_unmatched : List ℕ → List R → ℕ → Sending R → ℕ × Sending R
  unfolding send_defaults
  route_unmatched defaults [] nonroutable s = (nonroutable, s)
  route_unmatched defaults (r ∷ rs) nonroutable s =
      let ((has, succeeded), s') =
        send_defaults signal exporter_at consume defaults (r ∷ rs) (false, false) s in
      (
        if not has || not succeeded
            then int_add nonroutable (count_each count 0 (r ∷ rs))
            else nonroutable,
        s',
      )

  unfoldable pub consume_batch : (R → List ℕ) → Bool → List ℕ → List R → Warnings → Consumed R
  unfolding group start_grouping send_groups route_unmatched recorded_count
  consume_batch matched telemetry defaults batch w =
      let g = group signal exporter_at count matched batch (start_grouping w) in
      let s =
        send_groups signal exporter_at consume g.groups (record { deliveries = []; errs = [] }) in
      let (nonroutable, s') = route_unmatched defaults g.unmatched g.nonroutable s in
      record {
        sending = s';
        recorded = recorded_count telemetry nonroutable;
        warnings = g.warnings;
      }
