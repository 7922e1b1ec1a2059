-- ===== src/Config/Tests.antt =====
-- The signals of a concrete block, concrete routing rules, and a document that is accepted.
use exportercreator.Path.{
  trailing_dot, parse_property_path, resolve_attribute_name, contains, quoted,
}
use exportercreator.Router.{RoutingRule, resolve_rules}
use exportercreator.Config.Routing.{
  check_rules, no_attribute, bad_property, IsUsable, IsResolvedRule, check_rules_iff,
}
use exportercreator.Prelude.GoMap.{GoMap}
use exportercreator.Prelude.{
  Text, Option, ◌≡◌, ◌↔◌, [], ◌∷◌, All, refl, true, false, ◌||◌, none, some, text_eq,
}
use exportercreator.Prelude.Outcome.{Outcome, ok, err}
use exportercreator.Value.{Value, Fields, text, bool, object, end, field, find}
use exportercreator.Value.Tests.{bytes}
use exportercreator.Component.{ComponentId}
use exportercreator.Expansion.{Evaluated, value}
use exportercreator.Rules.Pattern.{new_rule, no_type}
use exportercreator.Config.{ExporterSignals}
use exportercreator.Config.Unmarshal.{
  Config, Section, Settings, Document, ConfigError, create_default_config, unmarshal, bad_template,
  bad_rule,
}
use exportercreator.Config.Accepted.{IsAccepted, AllTemplates, unmarshal-IsAccepted}
use exportercreator.Config.Signals.{
  signals_from_config, setting, metrics_key, logs_key, traces_key, none_enabled, unknown_key,
  signals_from_config-ok,
}

abbrev logs_only : Fields
logs_only = field (bytes "metrics") (bool false) (field (bytes "logs") (bool true) end)

abbrev only_logs : ExporterSignals
only_logs = record { metrics = false; logs = true; traces = false }

selects :
    (signals_from_config (some (object logs_only)) ≡ ok (some only_logs))
    × (signals_from_config (some (object end)) ≡ err none_enabled)
    × (signals_from_config (some (object (field (bytes "log") (bool true) end)))
        ≡ err (unknown_key (bytes "log")))
unfolding signals_from_config text_eq
selects = (refl, refl, refl)

signals_from_config-ok_example :
    (false ≡ setting false (find metrics_key logs_only))
    × (true ≡ setting false (find logs_key logs_only))
    × (false ≡ setting false (find traces_key logs_only))
    × ((false || true || false) ≡ true)
unfolding find text_eq
signals_from_config-ok_example =
    signals_from_config-ok logs_only only_logs (refl, (refl, tt)) selects.0

-- The brackets of the attribute resolve to a dotted name.
abbrev by_label : RoutingRule
by_label = record {
  resource_attribute = bytes "labels[\"app.io\"]";
  attribute_name = [];
  endpoint_property = bytes "labels.app";
}

abbrev trailing : RoutingRule
trailing = record {
  resource_attribute = bytes "app";
  attribute_name = [];
  endpoint_property = bytes "labels.";
}

abbrev unnamed : RoutingRule
unnamed = record { resource_attribute = []; attribute_name = []; endpoint_property = [] }

checks_rules :
    (check_rules 0 (by_label ∷ []) ≡ none)
    × (check_rules 0 (by_label ∷ trailing ∷ unnamed ∷ []) ≡ some (bad_property 1 trailing_dot))
    × (check_rules 0 (unnamed ∷ trailing ∷ []) ≡ some (no_attribute 0))
unfolding check_rules parse_property_path resolve_attribute_name quoted contains
checks_rules = (refl, refl, refl)

check_rules_iff_example :
    ((check_rules 0 (by_label ∷ []) ≡ none) ↔ All IsUsable (by_label ∷ []))
    × (check_rules 0 (by_label ∷ []) ≡ none → All IsResolvedRule (resolve_rules (by_label ∷ [])))
check_rules_iff_example = check_rules_iff (by_label ∷ [])

by_label-IsResolvedRule : All IsResolvedRule (resolve_rules (by_label ∷ []))
by_label-IsResolvedRule = (check_rules_iff (by_label ∷ [])).1 checks_rules.0

-- A document with one routing rule and one template, whose block selects the logs.
abbrev log_section : Section
log_section = record {
  config = object (field (bytes "endpoint") (text (bytes "`endpoint`")) end);
  signals = some (object logs_only);
  decoded = ok (record {
    rule_text = bytes "type == \"pod\"";
    resource_attributes = field (bytes "app") (text (bytes "x")) end;
  });
}

abbrev document : Document
document = record {
  settings = ok (record { watch_observers = []; rules = by_label ∷ []; default_exporters = [] });
  exporters = ok ((bytes "otlp", ok log_section) ∷ []);
}

abbrev as_kind : Text → Outcome Text ComponentId
as_kind s = ok (record { kind = s; name = [] })

abbrev fields_of : Value → Fields
fields_of (object fs) = fs
fields_of v = end

abbrev compiles : Text → Outcome Text (Fields → Evaluated)
compiles s = ok (λ env. value (bool true))

abbrev read : Option ConfigError × Config
read = unmarshal as_kind fields_of (bytes "pod" ∷ []) compiles (some document) create_default_config

accepts_document : read.0 ≡ none
unfolding unmarshal new_rule signals_from_config parse_property_path resolve_attribute_name quoted
    contains text_eq
accepts_document = refl

unmarshal-IsAccepted_example :
    (read.0 ≡ none
      → IsAccepted as_kind fields_of
          (bytes "pod" ∷ [])
          compiles
          document
          create_default_config
          read.1)
    × ((settings : Settings) (sections : GoMap Text (Outcome Text Section))
        → document.settings ≡ ok settings
        → document.exporters ≡ ok sections
        → All IsUsable settings.rules
        → AllTemplates as_kind fields_of (bytes "pod" ∷ []) compiles sections
        → read.0 ≡ none)
unmarshal-IsAccepted_example =
    unmarshal-IsAccepted as_kind fields_of (bytes "pod" ∷ []) compiles document
      create_default_config

holds_template :
    IsAccepted as_kind fields_of (bytes "pod" ∷ []) compiles document create_default_config read.1
holds_template =
    (unmarshal-IsAccepted as_kind fields_of (bytes "pod" ∷ []) compiles document
        create_default_config).0
      accepts_document

rejects_section :
    (unmarshal as_kind fields_of [] compiles (some document) create_default_config).0
    ≡ some (bad_template (bytes "otlp") (bad_rule no_type))
unfolding unmarshal new_rule signals_from_config parse_property_path resolve_attribute_name quoted
    contains text_eq
rejects_section = refl
