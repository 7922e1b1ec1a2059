-- ===== src/Handler/Tests.antt =====
-- Runs of the handler, and the theorems about it at a concrete history of notifications.
use exportercreator.Prelude.{
  ◌+◌, ◌%◌, ◌<◌, ◌≡◌, refl, sym, arith, Option, int_add, int_sub, true, false, List, [], ◌∷◌, none,
  some, if◌then◌else◌, length, Text, text_eq, text_Eq, ◌=?◌, word,
}
use exportercreator.Prelude.Outcome.{ok}
use exportercreator.Prelude.GoMap.{lookup, insert, delete}
use exportercreator.Prelude.MultiMap.{slice_at}
use exportercreator.Value.{
  Value, Fields, text, int, bool, end, field, at_key, find, sprint, to_string,
}
use exportercreator.Value.Tests.{bytes}
use exportercreator.Component.{Endpoint}
use exportercreator.ExporterMap.{get, put, values, remove_all}
use mathlib.Core.Path.{subst}
use exportercreator.Prelude.Member.{In, first}
use exportercreator.Router.{
  RoutingRule, TelemetryRouter, new_telemetry_router, count_of, route, add_exporter,
  remove_exporter, matched_in, matches_all_rules, matches_each, matches_rule,
}
use exportercreator.Path.{
  resolve_attribute_name, contains, get_nested_property, parse_property_path, walk, descend,
}
use exportercreator.Handler.Routed.{route-running}
use exportercreator.Expansion.{
  Evaluated, value, is_blank, eval_backticks, expand_config, expand_fields,
  remove_nil_values_from_map,
}
use exportercreator.Rules.{eval_rule}
use exportercreator.Config.{ExporterTemplate}
use exportercreator.Handler.{
  ObserverHandler, Runner, new_observer_handler, shutdown, resolve_configs, discovered_cfg,
  on_add_locked, on_remove_locked,
}
use exportercreator.Handler.History.{Notification, added, removed, changed, notify, notify_all}
use exportercreator.Handler.InStep.{exporters_of, notify_all-in_step}
use exportercreator.Handler.Calls.{occurrences, times_started, times_stopped, failed_stops}
use exportercreator.Handler.Leaks.{notify_all-accounted, shutdown-stops_all}
use exportercreator.Handler.Errors.{shutdown-errors}
use exportercreator.Handler.Removed.{Grows, notify-endpoint}
use exportercreator.Handler.Target.{IsResolved, resolve_configs-IsResolved}

abbrev no_composite : Value → Text
no_composite v = []

abbrev eval_key : Text → Fields → Evaluated
eval_key e env = value (at_key e env)

-- Exporters are numbered by the calls before, and the first of them does not shut down.
abbrev numbering : Runner
numbering = record {
  start = λ calls cfg discovered signals. ok (length calls);
  shutdown = λ calls exp. if exp =? 0 then some (bytes "stuck") else none;
}

abbrev otlp : ExporterTemplate
otlp = record {
  exporter_config = record {
    id = record { kind = bytes "otlp"; name = [] };
    config = field (bytes "port") (text (bytes "`port`")) end;
    endpoint_id = [];
  };
  rule_text = [];
  resource_attributes = field (bytes "app") (text (bytes "`name`")) end;
  rule = record { program = λ env. value (bool true) };
  signals = record { metrics = true; logs = true; traces = false };
}

abbrev pod_env : Fields
pod_env = field (bytes "port") (int false 4317) end

abbrev pod : Text → Endpoint
pod id = record { id = id; target = bytes "10.0.0.1"; details = none; env = some pod_env }

abbrev notifications : List Notification
notifications =
    added (pod (bytes "a") ∷ pod (bytes "b") ∷ [])
    ∷ changed (pod (bytes "a") ∷ [])
    ∷ removed (pod (bytes "b") ∷ [])
    ∷ []

abbrev router : TelemetryRouter
router = new_telemetry_router [] true

abbrev first_handler : ObserverHandler
first_handler = new_observer_handler router

abbrev last_handler : ObserverHandler
last_handler = notify_all no_composite eval_key numbering (otlp ∷ []) first_handler notifications

resolves :
    resolve_configs no_composite eval_key otlp pod_env (bytes "10.0.0.1")
    ≡ some (pod_env, discovered_cfg end (bytes "10.0.0.1"))
unfolding resolve_configs discovered_cfg expand_config expand_fields eval_backticks is_blank sprint
    text_eq at_key find remove_nil_values_from_map
resolves = refl

resolve_configs-IsResolved_example :
    IsResolved no_composite eval_key pod_env otlp.exporter_config.config
      (bytes "10.0.0.1")
      pod_env
      (discovered_cfg end (bytes "10.0.0.1"))
unfolding find
resolve_configs-IsResolved_example =
    resolve_configs-IsResolved no_composite eval_key pod_env otlp (bytes "10.0.0.1") pod_env
      (discovered_cfg end (bytes "10.0.0.1")) (refl, tt) resolves

-- An endpoint that is reported twice gets a second exporter.
added_twice :
    length (
      values
        (notify_all no_composite eval_key numbering
          (otlp ∷ [])
          first_handler
          (added (pod (bytes "a") ∷ []) ∷ added (pod (bytes "a") ∷ []) ∷ [])).exporters_by_endpoint)
    ≡ 2
unfolding values on_add_locked eval_rule expand_config expand_fields eval_backticks is_blank find
    text_eq remove_nil_values_from_map sprint at_key put insert new_observer_handler lookup
added_twice = refl

notify_all-in_step_example :
    ((id : Text)
      → exporters_of (slice_at (lookup id last_handler.router.exporters))
        ≡ get id last_handler.exporters_by_endpoint)
    × (count_of last_handler.router ≡ length (values last_handler.exporters_by_endpoint) % word)
notify_all-in_step_example =
    notify_all-in_step no_composite eval_key numbering (otlp ∷ []) [] true notifications

notify_all-accounted_example :
    times_started 2 last_handler.calls
    ≡ occurrences 2 (values last_handler.exporters_by_endpoint) + times_stopped 2 last_handler.calls
notify_all-accounted_example =
    notify_all-accounted no_composite eval_key numbering (otlp ∷ []) router notifications 2

shutdown-stops_all_example :
    times_stopped 2 (shutdown numbering last_handler).1.calls
    ≡ times_started 2 (shutdown numbering last_handler).1.calls
shutdown-stops_all_example =
    shutdown-stops_all no_composite eval_key numbering (otlp ∷ []) router notifications 2

notify-endpoint_example : Grows (bytes "a") true [] (
    notify no_composite eval_key numbering
      (otlp ∷ [])
      last_handler
      (changed (pod (bytes "a") ∷ [])))
unfolding text_eq
notify-endpoint_example =
    notify-endpoint no_composite eval_key numbering (otlp ∷ []) (changed (pod (bytes "a") ∷ []))
      (bytes "a") last_handler

shutdown-errors_example :
    failed_stops (shutdown numbering last_handler).1.calls
    ≡ failed_stops last_handler.calls + length (shutdown numbering last_handler).0
shutdown-errors_example = shutdown-errors numbering last_handler

-- Telemetry of the port that the endpoints have.
abbrev by_port : List RoutingRule
by_port =
    record {
      resource_attribute = bytes "port";
      attribute_name = [];
      endpoint_property = bytes "port";
    }
    ∷ []

abbrev one_removed : List Notification
one_removed = added (pod (bytes "a") ∷ pod (bytes "b") ∷ []) ∷ removed (pod (bytes "a") ∷ []) ∷ []

abbrev routing_handler : ObserverHandler
routing_handler =
    notify_all no_composite eval_key numbering (otlp ∷ [])
      (new_observer_handler (new_telemetry_router by_port true)) one_removed

abbrev of_port : Text → Option Text
of_port name = some (bytes "4317")

one_left :
    (length (values routing_handler.exporters_by_endpoint) ≡ 1)
    × (route no_composite of_port routing_handler.router ≡ 1 ∷ [])
unfolding values on_add_locked on_remove_locked eval_rule expand_config expand_fields eval_backticks
    is_blank find text_eq remove_nil_values_from_map sprint at_key put insert new_observer_handler
    lookup get remove_all delete add_exporter remove_exporter new_telemetry_router int_add int_sub
    resolve_attribute_name contains route matched_in matches_all_rules matches_each matches_rule
    get_nested_property parse_property_path walk descend to_string
one_left = (refl, refl)

route-running_example :
    ((id : Text) × In 1 (get id routing_handler.exporters_by_endpoint))
    × (times_stopped 1 routing_handler.calls < times_started 1 routing_handler.calls)
route-running_example =
    route-running no_composite eval_key numbering (otlp ∷ []) by_port true one_removed of_port 1
      (omega (arith, one_left.0)) (subst (In 1) (sym one_left.1) (first refl))
