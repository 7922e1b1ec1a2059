-- ===== src/Router/Tests.antt =====
-- Runs of the router, and the theorems about it at a concrete history of calls.
use exportercreator.Prelude.{
  ◌%◌, ◌≡◌, ◌↔◌, refl, true, false, ◌=?◌, List, [], ◌∷◌, Option, none, some, if◌then◌else◌, Text,
  text_eq, text_Eq, ◌==◌, arith, word, length, ◌<◌, int_add, int_sub,
}
use exportercreator.Prelude.GoMap.{lookup}
use exportercreator.Prelude.Member.{In}
use exportercreator.Value.{Value, Fields, end, field, text, to_string}
use exportercreator.Value.Tests.{bytes}
use exportercreator.Path.{
  parse_property_path, get_nested_property, resolve_attribute_name, walk, descend,
}
use exportercreator.Router.{
  RoutingRule, TelemetryRouter, new_telemetry_router, add_exporter, remove_exporter,
  matches_all_rules, matches_each, matches_rule, matched_in, route,
}
use exportercreator.Router.Logs.{
  routing, values_differ, verdict, none_matched, routing_rule, route_logged, rule_logged,
  attrs_to_map, property_lines, resource_attribute_props, rule_lines,
}
use exportercreator.Router.Logged.{attribute}
use exportercreator.Router.Verdicts.{verdicts, decisions, route_logged_lem}
use exportercreator.Router.History.{RouterCall, add, remove, of_type, after_all}
use exportercreator.Router.Refines.{Represents, call_all, telemetry_router_refines}
use exportercreator.Router.Gauge.{now, report, record_count_locked_current}
use exportercreator.Router.Matches.{Matches, matches_all_rules_iff}
use exportercreator.Router.Route.{RoutedTo, route_iff}

abbrev by_app : RoutingRule
by_app = record {
  resource_attribute = bytes "k8s.app";
  attribute_name = bytes "k8s.app";
  endpoint_property = bytes "app";
}

abbrev app_env : Text → Fields
app_env name = field (bytes "app") (text name) end

-- Two endpoints are registered, and the first is removed.
abbrev calls : List RouterCall
calls =
    add (bytes "a") 1 (app_env (bytes "web")) (bytes "otlp")
    ∷ add (bytes "b") 2 (app_env (bytes "db")) (bytes "file")
    ∷ add (bytes "b") 3 (app_env (bytes "db")) (bytes "otlp")
    ∷ remove (bytes "a")
    ∷ []

abbrev router : TelemetryRouter
router = call_all (new_telemetry_router (by_app ∷ []) true) calls

abbrev from_db : Text → Option Text
from_db name = if name == bytes "k8s.app" then some (bytes "db") else none

abbrev blank : Value → Text
blank v = []

telemetry_router_refines_example : Represents router (after_all [] calls)
telemetry_router_refines_example = telemetry_router_refines (by_app ∷ []) true calls

abbrev registering : List RouterCall
registering =
    add (bytes "a") 1 (app_env (bytes "web")) (bytes "otlp")
    ∷ add (bytes "b") 2 (app_env (bytes "db")) (bytes "file")
    ∷ add (bytes "b") 3 (app_env (bytes "db")) (bytes "otlp")
    ∷ []

record_count_locked_current_example :
    lookup
      (bytes "otlp")
      (report (call_all (new_telemetry_router (by_app ∷ []) true) registering) (remove (bytes "a")))
    ≡ some (of_type (bytes "otlp") (after_all [] calls) % word)
record_count_locked_current_example =
    record_count_locked_current (by_app ∷ []) registering (remove (bytes "a")) (bytes "otlp")
      (now refl)

matches_all_rules_iff_example :
    (matches_all_rules blank from_db (by_app ∷ []) (app_env (bytes "db")) ≡ true)
    ↔ Matches blank from_db (by_app ∷ []) (app_env (bytes "db"))
matches_all_rules_iff_example =
    matches_all_rules_iff blank from_db (by_app ∷ []) (app_env (bytes "db"))

few : length (after_all [] calls) < word
unfolding text_eq
few = omega arith

route_iff_example :
    In 2 (route blank from_db router) ↔ RoutedTo blank from_db router (after_all [] calls) 2
route_iff_example =
    route_iff blank from_db router (after_all [] calls) telemetry_router_refines_example few 2

routes_to_both : route blank from_db router ≡ 2 ∷ 3 ∷ []
unfolding route matched_in matches_all_rules matches_each matches_rule get_nested_property
    parse_property_path walk descend add_exporter remove_exporter new_telemetry_router to_string
    text_eq int_add int_sub resolve_attribute_name
routes_to_both = refl

abbrev db_attrs : List (Text × Text)
db_attrs = (bytes "k8s.app", bytes "db") ∷ []

abbrev one_exporter : TelemetryRouter
one_exporter =
    call_all (new_telemetry_router (by_app ∷ []) true)
      (add (bytes "a") 1 (app_env (bytes "web")) (bytes "otlp") ∷ [])

-- The log of a resource that the only exporter does not match.
explains_mismatch :
    (route_logged blank blank true db_attrs one_exporter).1
    ≡ routing db_attrs 1 1
      ∷ values_differ by_app (bytes "db") (bytes "web") []
      ∷ verdict false (bytes "a") db_attrs end
      ∷ none_matched db_attrs 1 1
      ∷ routing_rule 0 (bytes "k8s.app") (bytes "app")
      ∷ []
unfolding route_logged rule_logged attrs_to_map property_lines resource_attribute_props rule_lines
    get_nested_property parse_property_path walk descend add_exporter new_telemetry_router to_string
    text_eq int_add resolve_attribute_name
explains_mismatch = refl

route_logged_lem_example :
    ((route_logged blank blank true db_attrs router).0
      ≡ route blank (attribute blank blank db_attrs) router)
    × ((route_logged blank blank false db_attrs router).1 ≡ [])
    × ((length router.rules =? 0) ≡ false
        → (router.count =? 0) ≡ false
        → verdicts (route_logged blank blank true db_attrs router).1
          ≡ decisions blank blank db_attrs router.rules router.exporters)
route_logged_lem_example = route_logged_lem blank blank db_attrs true router
