-- ===== src/Notify/Tests.antt =====
-- Two observers that report the same endpoint at the same time.
use exportercreator.Prelude.{
  ◌≡◌, refl, true, false, List, [], ◌∷◌, none, some, length, Text, text_eq, text_Eq,
}
use exportercreator.Prelude.Outcome.{ok}
use exportercreator.Prelude.GoMap.{lookup, insert, delete}
use exportercreator.Value.{Fields, end, bool, find}
use exportercreator.Value.Tests.{bytes}
use exportercreator.Component.{Endpoint}
use exportercreator.ExporterMap.{get, put, remove_all, values}
use exportercreator.Router.{new_telemetry_router}
use exportercreator.Expansion.{
  Evaluated, value, expand_config, expand_fields, remove_nil_values_from_map, eval_backticks,
}
use exportercreator.Rules.{eval_rule}
use exportercreator.Config.{ExporterTemplate}
use exportercreator.Handler.{Runner, new_observer_handler, on_add_locked, on_remove_locked}
use exportercreator.Handler.History.{added, removed}
use exportercreator.Tracker.{new_endpoint_tracker}
use exportercreator.Notify.{ObserverNotify, Shared, Half, asks, tells, deliver_half}
use exportercreator.Notify.Tracked.{IsDelivered, deliver_all, deliver_all-consistent}

abbrev observed_by : Text → ObserverNotify
observed_by kind = record { id = kind; observer_id = record { kind = kind; name = [] } }

abbrev pod : Endpoint
pod = record { id = bytes "a"; target = bytes "t"; details = none; env = some end }

abbrev first_runner : Runner
first_runner = record { start = λ calls c d s. ok (length calls); shutdown = λ calls exp. none }

abbrev any_pod : ExporterTemplate
any_pod = record {
  exporter_config = record {
    id = record { kind = bytes "otlp"; name = [] };
    config = end;
    endpoint_id = [];
  };
  rule_text = [];
  resource_attributes = end;
  rule = record { program = λ env. value (bool true) };
  signals = record { metrics = true; logs = true; traces = true };
}

abbrev never : Text → Fields → Evaluated
never e env = value (bool false)

-- The second observer's report comes in between the halves of the first one's.
abbrev reports : List Half
reports =
    asks (added (pod ∷ []))
    ∷ asks (added (pod ∷ []))
    ∷ tells (observed_by (bytes "y")) (added (pod ∷ []))
    ∷ tells (observed_by (bytes "x")) (added (pod ∷ []))
    ∷ asks (removed (pod ∷ []))
    ∷ tells (observed_by (bytes "x")) (removed (pod ∷ []))
    ∷ []

abbrev last : Shared
last =
    deliver_all (λ v. []) never first_runner (any_pod ∷ [])
      (record {
        handler = new_observer_handler (new_telemetry_router [] true);
        tracker = new_endpoint_tracker true;
      })
      reports

-- One observer retracts an endpoint that another one still reports, and its exporters are gone.
retracted_by_one : values last.handler.exporters_by_endpoint ≡ []
unfolding deliver_half new_observer_handler on_add_locked on_remove_locked eval_rule expand_config
    expand_fields eval_backticks remove_nil_values_from_map get put remove_all insert delete lookup
    text_eq values find
retracted_by_one = refl

deliver_all-consistent_example :
    IsDelivered (λ v. []) never first_runner (any_pod ∷ []) [] true reports
deliver_all-consistent_example =
    deliver_all-consistent (λ v. []) never first_runner (any_pod ∷ []) [] true reports
