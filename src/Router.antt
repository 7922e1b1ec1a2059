-- ===== src/Router.antt =====
-- The telemetry router of router.go. A component is known by its reference, and a resource's
-- attributes by what `Get` and then `AsString` give for a name. Debug logs stand in Logs, beside
-- the functions here that leave them out. Every method holds the router's lock from its first line
-- to its last, so a call is one step of the state.
pub mod History
mod Matches
pub mod Route
pub mod Logs
pub mod Logged
pub mod Silent
pub mod Verdicts
pub mod Refines
pub mod Gauge
pub mod Tests
use exportercreator.Prelude.{
  ℕ, Bool, true, false, List, [], ◌∷◌, ◌++◌, Option, none, some, ◌=?◌, if◌then◌else◌, length, Text,
  text_Eq, ◌==◌, int_add, int_sub, word, ◌%◌,
}
use exportercreator.Prelude.Outcome.{Outcome, ok, err}
use exportercreator.Prelude.GoMap.{GoMap, lookup, insert, delete}
use exportercreator.Prelude.MultiMap.{slice_at, number_at, push}
use exportercreator.Value.{Value, Fields, nil, flatten_properties, to_string}
use exportercreator.Path.{resolve_attribute_name, get_nested_property}

pub record RoutingRule : Type 0 where
  pub resource_attribute : Text
  pub attribute_name : Text
  pub endpoint_property : Text

pub record RoutedExporter : Type 0 where
  pub exporter : ℕ
  pub properties : Fields
  pub exporter_type : Text

pub record TelemetryRouter : Type 0 where
  pub rules : List RoutingRule
  pub exporters : GoMap Text (List RoutedExporter)
  pub count : ℕ
  pub by_type : GoMap Text ℕ
  -- whether there is a telemetry builder to report to
  pub telemetry : Bool

-- the body of the loop of `newTelemetryRouter`
unfoldable pub resolve_rule : RoutingRule → RoutingRule
resolve_rule rule = elim (resolve_attribute_name rule.resource_attribute) [
  | ok name ↦ record rule { attribute_name = name }
  | err e ↦ record rule { attribute_name = rule.resource_attribute }
]

unfoldable pub resolve_rules : List RoutingRule → List RoutingRule
unfolding resolve_rule
resolve_rules [] = []
resolve_rules (rule ∷ rules) = resolve_rule rule ∷ resolve_rules rules

unfoldable pub new_telemetry_router : List RoutingRule → Bool → TelemetryRouter
unfolding resolve_rules
new_telemetry_router rules telemetry = record {
  rules = resolve_rules rules;
  exporters = [];
  count = 0;
  by_type = [];
  telemetry = telemetry;
}

-- `recordCountLocked`: the gauge values that are reported, one for each type that has been seen
unfoldable pub record_count_locked : TelemetryRouter → GoMap Text ℕ
record_count_locked r = if r.telemetry then r.by_type else []

abbrev pub registered : ℕ → Fields → Text → RoutedExporter
registered exp env exporter_type = record {
  exporter = exp;
  properties = flatten_properties env;
  exporter_type = exporter_type;
}

unfoldable pub add_exporter :
    Text → ℕ → Fields → Text → TelemetryRouter → TelemetryRouter × GoMap Text ℕ
unfolding insert lookup flatten_properties record_count_locked
add_exporter id exp env exporter_type r =
    let r' = record r {
      exporters = push id (registered exp env exporter_type) r.exporters;
      count = int_add r.count 1;
      by_type =
          insert exporter_type (int_add (number_at (lookup exporter_type r.by_type)) 1) r.by_type;
    } in
    (r', record_count_locked r')

-- the loop of `RemoveExporter`
unfoldable pub decrement_types : List RoutedExporter → GoMap Text ℕ → GoMap Text ℕ
decrement_types [] m = m
decrement_types (re ∷ res) m =
    decrement_types res
      (insert re.exporter_type (int_sub (number_at (lookup re.exporter_type m)) 1) m)

unfoldable pub remove_exporter : Text → TelemetryRouter → TelemetryRouter × GoMap Text ℕ
unfolding decrement_types delete lookup record_count_locked
remove_exporter id r =
    let gone = slice_at (lookup id r.exporters) in
    let r' = record r {
      exporters = delete id r.exporters;
      count = int_sub r.count (length gone % word);
      by_type = decrement_types gone r.by_type;
    } in
    (r', record_count_locked r')

unfoldable pub count_of : TelemetryRouter → ℕ
count_of r = r.count

module _ (composite : Value → Text) (attribute : Text → Option Text) where
  -- the comparison at the end of the loop body of `matchesAllRules`
  same_value : Text → Value → Bool
  same_value s nil = false
  same_value s v = s == to_string composite v

  -- One rule: its attribute, then its property, then the comparison.
  unfoldable pub matches_rule : Fields → RoutingRule → Bool
  unfolding same_value
  matches_rule properties rule = elim (attribute rule.attribute_name) [
    | none ↦ false
    | some s ↦ same_value s (get_nested_property properties rule.endpoint_property)
  ]

  unfoldable pub matches_each : Fields → List RoutingRule → Bool
  matches_each properties [] = true
  matches_each properties (rule ∷ rules) =
      if matches_rule properties rule then matches_each properties rules else false

  unfoldable pub matches_all_rules : List RoutingRule → Fields → Bool
  matches_all_rules [] properties = false
  matches_all_rules (rule ∷ rules) properties = matches_each properties (rule ∷ rules)

  -- the inner and the outer loop of `Route`
  unfoldable pub matched_of : List RoutingRule → List RoutedExporter → List ℕ
  matched_of rules [] = []
  matched_of rules (re ∷ res) =
      let rest = matched_of rules res in
      if matches_all_rules rules re.properties then re.exporter ∷ rest else rest

  unfoldable pub matched_in : List RoutingRule → GoMap Text (List RoutedExporter) → List ℕ
  unfolding matched_of
  matched_in rules [] = []
  matched_in rules ((id, exps) ∷ m) = matched_of rules exps ++ matched_in rules m

  unfoldable pub route : TelemetryRouter → List ℕ
  route r =
      if length r.rules =? 0
      then []
      else if r.count =? 0
      then []
      else matched_in r.rules r.exporters
