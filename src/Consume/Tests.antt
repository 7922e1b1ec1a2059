-- ===== src/Consume/Tests.antt =====
-- A batch of three resources, and the theorems about ConsumeLogs and ConsumeMetrics at it.
use exportercreator.Prelude.{
  ℕ, ◌≡◌, refl, true, List, [], ◌∷◌, Option, none, some, if◌then◌else◌, ◌=?◌, Text, int_add,
  is_positive, nat_Eq,
}
use exportercreator.Prelude.GoMap.{lookup, insert}
use exportercreator.Value.Tests.{bytes}
use exportercreator.Component.{logs, metrics}
use exportercreator.Wrapped.{
  Exporter, wrapped, static, Warnings, consumer_of, handles_itself, warn_unsupported_signal,
}
use exportercreator.Pdata.{count_each}
use exportercreator.Consume.{Delivery, consume_batch, group}
use exportercreator.Consume.Batch.{Accounts, consume_batch-Accounts}
use exportercreator.Consume.Metrics.{consume_metrics_batch}
use exportercreator.Consume.Same.{consume_metrics_batch-eq}
use exportercreator.Consume.WarnOnce.{IsOnce, none_warned, consume_batch-IsOnce}

-- Exporter 1 handles metrics only, exporter 2 handles all, and 9 is a default exporter.
abbrev exporters : ℕ → Exporter
exporters exp =
    if exp =? 1
    then wrapped (record {
      id = record { kind = bytes "otlp"; name = [] };
      logs_exporter = none;
      metrics_exporter = some 11;
      traces_exporter = none;
    })
    else static (λ signal. true)

-- A resource is a number: how many records it has, and where it is routed to.
abbrev routes : ℕ → List ℕ
routes r = if r =? 5 then 1 ∷ [] else if r =? 6 then 1 ∷ 2 ∷ [] else []

abbrev failing : List (Delivery ℕ) → ℕ → List ℕ → Option Text
failing ds consumer batch = if consumer =? 9 then some (bytes "down") else none

abbrev quiet : Warnings
quiet = record { flags = []; logged = [] }

abbrev batch : List ℕ
batch = 5 ∷ 6 ∷ 7 ∷ 5 ∷ []

-- Exporter 1 takes no logs, which is logged once and counts 5 records twice; the default exporter
-- fails, which counts 7 more.
counts :
    (consume_batch logs exporters (λ n. n) failing routes true (9 ∷ []) batch quiet).recorded ≡ 17
unfolding consume_batch group warn_unsupported_signal consumer_of handles_itself insert lookup
    count_each int_add is_positive
counts = refl

consume_batch-Accounts_example :
    Accounts logs exporters
      (λ n. n)
      routes
      failing
      true
      (9 ∷ [])
      batch
      (consume_batch logs exporters (λ n. n) failing routes true (9 ∷ []) batch quiet)
consume_batch-Accounts_example =
    consume_batch-Accounts logs exporters (λ n. n) routes failing true (9 ∷ []) batch quiet

consume_metrics_batch-eq_example :
    consume_metrics_batch exporters failing (λ n. n) routes true (9 ∷ []) batch quiet
    ≡ ([], consume_batch metrics exporters (λ n. n) failing routes true (9 ∷ []) batch quiet)
consume_metrics_batch-eq_example =
    consume_metrics_batch-eq exporters (λ n. n) failing routes true (9 ∷ []) batch quiet

consume_batch-IsOnce_example :
    IsOnce (consume_batch logs exporters (λ n. n) failing routes true (9 ∷ []) batch quiet).warnings
consume_batch-IsOnce_example =
    consume_batch-IsOnce logs exporters (λ n. n) failing routes true (9 ∷ []) batch quiet
      none_warned
