-- ===== src/Wrapped/Tests.antt =====
-- A wrapped exporter whose logs exporter does not start.
use exportercreator.Prelude.{
  ℕ, ◌≡◌, refl, List, [], ◌∷◌, Option, none, some, ◌=?◌, if◌then◌else◌, Text,
}
use exportercreator.Value.Tests.{bytes}
use exportercreator.Wrapped.{WrappedExporter, call_wrapped}
use exportercreator.Wrapped.Calls.{exporters_in, errors_from, call_wrapped_lem}

abbrev two_signals : WrappedExporter
two_signals = record {
  id = record { kind = bytes "otlp"; name = [] };
  logs_exporter = some 1;
  metrics_exporter = none;
  traces_exporter = some 3;
}

abbrev first_fails : List ℕ → ℕ → Option Text
first_fails calls x = if x =? 1 then some (bytes "refused") else none

-- The traces exporter is started all the same.
both_started : call_wrapped first_fails two_signals ≡ (1 ∷ 3 ∷ [], bytes "refused" ∷ [])
unfolding call_wrapped
both_started = refl

call_wrapped_lem_example :
    call_wrapped first_fails two_signals
    ≡ (exporters_in two_signals, errors_from first_fails [] (exporters_in two_signals))
call_wrapped_lem_example = call_wrapped_lem first_fails two_signals
