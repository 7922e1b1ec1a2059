-- ===== src/Creator/Tests.antt =====
-- The creator at concrete observers and batches.
use exportercreator.Prelude.{
  Text, nat_Eq, if◌then◌else◌, ◌=?◌, ◌++◌, is_positive, int_add, some, List, length, text_Eq, ℕ,
  ◌≡◌, refl, true, [], ◌∷◌, none, text_eq,
}
use exportercreator.Prelude.Outcome.{ok, err}
use exportercreator.Prelude.GoMap.{GoMap, lookup, insert}
use exportercreator.Value.Tests.{bytes}
use exportercreator.Component.{ComponentId, id_Eq}
use exportercreator.Path.{
  get_nested_property, walk, descend, resolve_attribute_name, contains, parse_property_path,
}
use exportercreator.Router.{
  matched_in, matches_all_rules, matches_each, matches_rule, RoutingRule, TelemetryRouter,
  new_telemetry_router, add_exporter, route,
}
use exportercreator.Pdata.{count_each, ResourceLogs, count_resource_log_records}
use exportercreator.Consume.{consume_batch}
use exportercreator.Value.{field, text, end, to_string}
use exportercreator.Wrapped.{static, consumer_of}
use exportercreator.Creator.{
  Extension, observer, other, not_found, not_an_observer, find_observers, start,
  new_exporter_creator,
}
use exportercreator.Creator.Subscribed.{IsSubscribed, start-IsSubscribed}
use exportercreator.Creator.Consuming.{
  AtRoute, consume_logs, AccountsForAll, creator-AccountsForAll,
}

abbrev k8s : ComponentId
k8s = record { kind = bytes "k8s_observer"; name = [] }

abbrev file : ComponentId
file = record { kind = bytes "file"; name = bytes "1" }

abbrev extensions : GoMap ComponentId Extension
extensions = (file, other) ∷ (k8s, observer 7) ∷ []

abbrev found : GoMap ComponentId ℕ
found = (k8s, 7) ∷ []

finds :
    (find_observers (k8s ∷ k8s ∷ []) extensions ≡ ok found)
    × (find_observers (k8s ∷ file ∷ []) extensions ≡ err (not_an_observer file))
    × (find_observers (k8s ∷ []) [] ≡ err (not_found k8s))
unfolding find_observers insert lookup text_eq
finds = (refl, refl, refl)

-- an id as it is written, such as k8s_observer/1
abbrev id_text : ComponentId → Text
id_text id = if length id.name =? 0 then id.kind else id.kind ++ b'/' ∷ id.name

start-IsSubscribed_example :
    IsSubscribed id_text k8s (k8s ∷ k8s ∷ []) extensions (new_exporter_creator []) (
      start id_text k8s
        (k8s ∷ k8s ∷ [])
        (new_telemetry_router [] true)
        (some extensions)
        (new_exporter_creator []))
unfolding lookup text_eq
start-IsSubscribed_example =
    start-IsSubscribed id_text k8s (k8s ∷ k8s ∷ []) (new_telemetry_router [] true) extensions
      (new_exporter_creator []) (refl, (refl, tt))

-- Two resources, between which an exporter is registered.
abbrev by_app : List RoutingRule
by_app =
    record {
      resource_attribute = bytes "app";
      attribute_name = [];
      endpoint_property = bytes "app";
    }
    ∷ []

abbrev before_add : TelemetryRouter
before_add = new_telemetry_router by_app true

abbrev after_add : TelemetryRouter
after_add =
    (add_exporter (bytes "a") 3 (field (bytes "app") (text (bytes "x")) end) (bytes "otlp")
      before_add).0

abbrev app_logs : ResourceLogs
app_logs = record { attributes = λ name. some (bytes "x"); scope_logs = (1 ∷ []) ∷ [] }

abbrev two_resources : List (AtRoute ResourceLogs)
two_resources =
    record { resource = app_logs; router = before_add }
    ∷ record { resource = app_logs; router = after_add }
    ∷ []

-- The first resource is counted as non-routable, and the second is sent.
changes_between :
    let c =
      consume_logs
        (λ v. [])
        (λ exp. static (λ signal. true))
        (new_exporter_creator by_app)
        (λ ds c b. none)
        two_resources
        (record { flags = []; logged = [] }) in
    (c.recorded ≡ 1) × (length c.sending.deliveries ≡ 1)
unfolding consume_logs new_exporter_creator consume_batch route new_telemetry_router add_exporter
    resolve_attribute_name contains text_eq is_positive int_add matched_in matches_all_rules
    matches_each matches_rule get_nested_property parse_property_path walk descend to_string
    consumer_of count_each count_resource_log_records
changes_between = (refl, refl)

creator-AccountsForAll_example :
    AccountsForAll
      (λ v. [])
      (λ exp. static (λ signal. true))
      (new_exporter_creator by_app)
      (λ ds c b. none)
      (λ ds c b. none)
      (λ ds c b. none)
      two_resources
      []
      []
      (record { flags = []; logged = [] })
unfolding new_exporter_creator
creator-AccountsForAll_example =
    creator-AccountsForAll (λ v. []) (λ exp. static (λ signal. true)) (new_exporter_creator by_app)
      (new_telemetry_router by_app true) (λ ds c b. none) (λ ds c b. none) (λ ds c b. none)
      two_resources [] [] (record { flags = []; logged = [] }) refl
