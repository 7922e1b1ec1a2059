-- ===== src/Runner/Tests.antt =====
-- The runner with a factory that takes an endpoint and supports logs and metrics.
use exportercreator.Prelude.{
  nat_Eq, if◌then◌else◌, ◌=?◌, ◌++◌, ℕ, ◌≡◌, refl, sym, arith, Bool-cases, inl, inr, true, false,
  List, [], ◌∷◌, Option, none, some, length, Text, text_Eq, ◌==◌, text_eq, int_add,
}
use mathlib.Core.Path.{subst}
use exportercreator.Prelude.Member.{In, first}
use exportercreator.Prelude.GoMap.{insert, lookup}
use exportercreator.ExporterMap.{put, values}
use exportercreator.Path.{
  resolve_attribute_name, contains, get_nested_property, parse_property_path, walk, descend,
}
use exportercreator.Router.{
  RoutingRule, new_telemetry_router, add_exporter, route, matched_in, matches_all_rules,
  matches_each, matches_rule,
}
use exportercreator.Rules.{eval_rule}
use exportercreator.Handler.History.{Notification, added, notify_all}
use exportercreator.Prelude.Outcome.{Outcome, ok}
use exportercreator.Value.{
  Value, Fields, int, bool, sprint, text, other, end, field, at_key, find, remove, to_string,
  copy_into,
}
use exportercreator.Value.Tests.{bytes}
use exportercreator.Component.{ComponentId, logs, metrics, traces}
use exportercreator.Config.{ExporterConfig, ExporterSignals, ExporterTemplate}
use exportercreator.Expansion.{
  Evaluated, value, expand_config, expand_fields, eval_backticks, is_blank,
  remove_nil_values_from_map,
}
use exportercreator.Runner.Endpoint.{MergesOver, IsMerged, for_merge-IsMerged}
use exportercreator.Handler.{
  ObserverHandler, endpoint_config_key, tmp_set_endpoint_config_key, has_key, resolve_configs,
  discovered_cfg, new_observer_handler, on_add_locked,
}
use exportercreator.Wrapped.{WrappedExporter, call_wrapped}
use exportercreator.Runner.{
  ExporterSettings, new_exporter_runner, Factory, created, not_supported, template_has_endpoint,
  for_merge, run_start,
}
use exportercreator.Runner.Serving.{Surroundings, exporter_runner, reference_of, start_wrapped}
use exportercreator.Runner.Served.{IsServed, route-IsServed}
use exportercreator.Runner.Created.{IsRun, run_start-ok}

abbrev as_text : Value → Text
as_text = to_string (λ v. [])

abbrev otlp : Factory
otlp = record {
  kind = bytes "otlp";
  accepts_endpoint = λ target. true;
  load = λ merged. ok 4;
  create = λ signal params cfg. elim signal [
    | logs ↦ created 1
    | metrics ↦ created 2
    | traces ↦ not_supported
  ];
}

abbrev discovered : Fields
discovered =
    field endpoint_config_key (text (bytes "h:1"))
      (field tmp_set_endpoint_config_key (other []) end)

abbrev all_signals : ExporterSignals
all_signals = record { metrics = true; logs = true; traces = true }

abbrev cfg : ExporterConfig
cfg = record {
  id = record { kind = bytes "otlp"; name = [] };
  config = end;
  endpoint_id = bytes "a";
}

abbrev as_is : Text → Text
as_is s = s

-- an id as it is written, such as exporter_creator/1
abbrev id_text : ComponentId → Text
id_text id = if length id.name =? 0 then id.kind else id.kind ++ b'/' ∷ id.name

abbrev settings : ExporterSettings
settings = record { id = record { kind = bytes "c"; name = [] }; logger = [] }

abbrev put_together : Fields → Fields → Outcome Text Fields
put_together templated rest = ok (copy_into templated rest)

abbrev starts : List ℕ → ℕ → Option Text
starts calls exp = none

abbrev made : WrappedExporter
made = record {
  id = record { kind = bytes "otlp"; name = bytes "/c{endpoint=h:1}/a" };
  logs_exporter = some 1;
  metrics_exporter = some 2;
  traces_exporter = none;
}

starts_two :
    run_start as_text as_is id_text put_together starts
      (new_exporter_runner settings)
      (some otlp)
      cfg
      discovered
      all_signals
    ≡ ok made
unfolding run_start new_exporter_runner text_eq at_key has_key remove template_has_endpoint
    to_string call_wrapped find
starts_two = refl

run_start-ok_example :
    IsRun starts as_text as_is id_text put_together
      (new_exporter_runner settings)
      otlp
      cfg
      discovered
      all_signals
      made
run_start-ok_example =
    run_start-ok starts as_text as_is id_text put_together (new_exporter_runner settings) otlp cfg
      discovered all_signals made starts_two

-- A template with a port and no endpoint, merged so that the second map is read first.
abbrev eval_key : Text → Fields → Evaluated
eval_key e env = value (at_key e env)

abbrev no_composite : Value → Text
no_composite v = []

abbrev pod_env : Fields
pod_env = field (bytes "port") (int false 4317) end

abbrev port_template : ExporterTemplate
port_template = record {
  exporter_config = record {
    id = record { kind = bytes "otlp"; name = [] };
    config = field (bytes "port") (text (bytes "`port`")) end;
    endpoint_id = [];
  };
  rule_text = [];
  resource_attributes = end;
  rule = record { program = λ env. value (bool true) };
  signals = all_signals;
}

abbrev in_front : Fields → Fields → Fields
in_front templated end = templated
in_front templated (field k v rest) = field k v (in_front templated rest)

abbrev merge_in_front : Fields → Fields → Outcome Text Fields
merge_in_front templated rest = ok (in_front templated rest)

find-in_front :
    (templated rest : Fields) (k : Text)
    → (find k rest ≡ none → find k (in_front templated rest) ≡ find k templated)
      × ((v : Value) → find k rest ≡ some v → find k (in_front templated rest) ≡ some v)
unfolding find
find-in_front templated end k = (λ h. refl, λ v h. absurd (cc h))
find-in_front templated (field j w rest) k =
    let (missing, there) = find-in_front templated rest k in
    elim (Bool-cases (j == k)) [
      | inl same ↦ rw same (λ h. absurd (cc h), λ v h. h)
      | inr apart ↦ rw apart (missing, there)
    ]

merge_in_front-MergesOver : MergesOver merge_in_front
merge_in_front-MergesOver templated rest merged k h =
    let q : in_front templated rest ≡ merged = cc h in
    let (missing, there) = find-in_front templated rest k in
    rw (sym q) (missing, λ v absent found. there v found)

abbrev marked_endpoint : Fields
marked_endpoint =
    field endpoint_config_key (text (bytes "10.0.0.1"))
      (field tmp_set_endpoint_config_key (other (bytes "{}")) end)

abbrev merged_port : Fields
merged_port = field endpoint_config_key (text (bytes "10.0.0.1")) pod_env

port_resolves :
    resolve_configs no_composite eval_key port_template pod_env (bytes "10.0.0.1")
    ≡ some (pod_env, marked_endpoint)
unfolding resolve_configs discovered_cfg expand_config expand_fields eval_backticks is_blank sprint
    text_eq at_key find remove_nil_values_from_map
port_resolves = refl

port_merges :
    merge_in_front pod_env (for_merge as_text otlp pod_env marked_endpoint).1 ≡ ok merged_port
unfolding for_merge template_has_endpoint has_key remove at_key find text_eq to_string
port_merges = refl

for_merge-IsMerged_example :
    IsMerged as_text otlp no_composite eval_key pod_env merge_in_front
      port_template.exporter_config.config
      (bytes "10.0.0.1")
      pod_env
      merged_port
      (for_merge as_text otlp pod_env marked_endpoint).0
unfolding find to_string
for_merge-IsMerged_example =
    for_merge-IsMerged as_text otlp no_composite eval_key pod_env merge_in_front port_template
      (bytes "10.0.0.1") pod_env marked_endpoint merged_port refl merge_in_front-MergesOver
      (refl, tt) port_resolves port_merges

-- An endpoint that is added to a handler with this runner.
abbrev surroundings : Surroundings
surroundings = record {
  to_text = as_text;
  quote = as_is;
  merge = merge_in_front;
  id_text = id_text;
  params = settings;
  get_factory = λ calls kind. some otlp;
  start_exporter = λ calls. starts;
  shutdown_exporter = λ calls. starts;
  error_text = λ e. [];
  combine = λ errs. [];
}

abbrev by_port : List RoutingRule
by_port =
    record {
      resource_attribute = bytes "port";
      attribute_name = [];
      endpoint_property = bytes "port";
    }
    ∷ []

abbrev pod_added : List Notification
pod_added =
    added (
      record { id = bytes "a"; target = bytes "10.0.0.1"; env = some pod_env; details = none } ∷ [])
    ∷ []

abbrev serving_handler : ObserverHandler
serving_handler =
    notify_all no_composite eval_key (exporter_runner surroundings) (port_template ∷ [])
      (new_observer_handler (new_telemetry_router by_port true)) pod_added

abbrev of_port : Text → Option Text
of_port name = some (bytes "4317")

pod_served :
    (length (values serving_handler.exporters_by_endpoint) ≡ 1)
    × (route no_composite of_port serving_handler.router ≡ 0 ∷ [])
unfolding values on_add_locked eval_rule expand_config expand_fields eval_backticks is_blank find
    text_eq remove_nil_values_from_map sprint at_key put insert new_observer_handler lookup
    add_exporter new_telemetry_router int_add resolve_attribute_name contains route matched_in
    matches_all_rules matches_each matches_rule get_nested_property parse_property_path walk descend
    to_string run_start remove has_key template_has_endpoint call_wrapped reference_of start_wrapped
    new_exporter_runner
pod_served = (refl, refl)

route-IsServed_example : IsServed surroundings serving_handler.calls 0
route-IsServed_example =
    route-IsServed surroundings no_composite eval_key (port_template ∷ []) by_port true pod_added
      of_port 0 (omega (arith, pod_served.0)) (subst (In 0) (sym pod_served.1) (first refl))
