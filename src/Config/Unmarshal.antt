-- ===== src/Config/Unmarshal.antt =====
-- `Config.Unmarshal` and `newExporterTemplate` of config.go. A parsed document is a record of what
-- confmap answers for it; `parse_id` stands for component.ID's UnmarshalText, `to_string_map` for
-- cast.ToStringMap, and a rule is made with the names and the compiler that `new_rule` takes.
use exportercreator.Prelude.{true, List, [], ◌∷◌, Option, none, some, Text, text_Eq}
use exportercreator.Prelude.Outcome.{Outcome, ok, err, ◌>>=◌}
use exportercreator.Prelude.GoMap.{GoMap, insert}
use exportercreator.Value.{Value, Fields, text, end, field}
use exportercreator.Component.{ComponentId}
use exportercreator.Router.{RoutingRule}
use exportercreator.Expansion.{Evaluated}
use exportercreator.Rules.Pattern.{NewRuleError, new_rule}
use exportercreator.Config.{ExporterConfig, ExporterSignals, ExporterTemplate}
use exportercreator.Config.Routing.{RoutingError, check_rules}
use exportercreator.Config.Signals.{SignalsError, signals_from_config}

pub record Config : Type 0 where
  pub exporter_templates : GoMap Text ExporterTemplate
  pub watch_observers : List ComponentId
  pub rules : List RoutingRule
  pub default_exporters : List ComponentId

-- What the section of a template decodes to: its rule and its resource attributes.
pub record Decoded : Type 0 where
  pub rule_text : Text
  pub resource_attributes : Fields

-- The section of one template: what stands under `config` and `signals`, and how it decodes.
pub record Section : Type 0 where
  pub config : Value
  pub signals : Option Value
  pub decoded : Outcome Text Decoded

-- What the document says of the configuration itself.
pub record Settings : Type 0 where
  pub watch_observers : List ComponentId
  pub rules : List RoutingRule
  pub default_exporters : List ComponentId

-- A document: how it decodes, and its section `exporters` with the section of each entry.
pub record Document : Type 0 where
  pub settings : Outcome Text Settings
  pub exporters : Outcome Text (GoMap Text (Outcome Text Section))

-- `createDefaultConfig` of factory.go
abbrev pub create_default_config : Config
create_default_config = record {
  exporter_templates = [];
  watch_observers = [];
  rules = [];
  default_exporters = [];
}

pub data TemplateError : Type 0 where
  no_section bad_id not_decoded : Text → TemplateError
  bad_rule : NewRuleError → TemplateError
  bad_attribute : Text → TemplateError
  bad_signals : SignalsError → TemplateError

pub data ConfigError : Type 0 where
  bad_settings no_exporters : Text → ConfigError
  bad_routing : RoutingError → ConfigError
  bad_template : Text → TemplateError → ConfigError

abbrev pub map_err : {E F A : Type 0} → (E → F) → Outcome E A → Outcome F A
map_err f (ok x) = ok x
map_err f (err e) = err (f e)

-- "endpoint.id"
abbrev pub endpoint_id_text : Text
endpoint_id_text = b'e' ∷ b'n' ∷ b'd' ∷ b'p' ∷ b'o' ∷ b'i' ∷ b'n' ∷ b't' ∷ b'.' ∷ b'i' ∷ b'd' ∷ []

abbrev pub all_enabled : ExporterSignals
all_enabled = record { metrics = true; logs = true; traces = true }

-- the loop over the resource attributes of a template
unfoldable pub check_attributes : Fields → Outcome TemplateError (Unit {0})
check_attributes end = ok tt
check_attributes (field k (text s) fs) = check_attributes fs
check_attributes (field k v fs) = err (bad_attribute k)

abbrev pub signals_or : ExporterSignals → Option ExporterSignals → ExporterSignals
signals_or enabled none = enabled
signals_or enabled (some signals) = signals

module _ (parse_id : Text → Outcome Text ComponentId) (to_string_map : Value → Fields)
    (observed : List Text) (compile : Text → Outcome Text (Fields → Evaluated)) where
  unfoldable pub new_exporter_template :
      Text → Fields → Outcome Text (ExporterConfig × ExporterSignals)
  new_exporter_template name cfg = do
    id ← parse_id name
    ok (record { id = id; config = cfg; endpoint_id = endpoint_id_text }, all_enabled)

  -- the body of the loop over the templates, up to the template that it stores
  unfoldable pub read_template :
      Text → Outcome Text Section → Outcome TemplateError ExporterTemplate
  unfolding new_exporter_template check_attributes
  read_template key answer = do
    section ← map_err no_section answer
    (cfg, enabled) ← map_err bad_id (new_exporter_template key (to_string_map section.config))
    decoded ← map_err not_decoded section.decoded
    rule ← map_err bad_rule (new_rule observed compile decoded.rule_text)
    checked_all ← check_attributes decoded.resource_attributes
    signals ← map_err bad_signals (signals_from_config section.signals)
    ok (record {
      exporter_config = cfg;
      rule_text = decoded.rule_text;
      resource_attributes = decoded.resource_attributes;
      rule = rule;
      signals = signals_or enabled signals;
    })

  -- The loop over the templates: the error that ends it, and what it has stored.
  unfoldable pub read_templates :
      GoMap Text (Outcome Text Section)
      → GoMap Text ExporterTemplate
      → Option ConfigError × GoMap Text ExporterTemplate
  unfolding read_template insert
  read_templates [] templates = (none, templates)
  read_templates ((key, answer) ∷ sections) templates = elim (read_template key answer) [
    | err e ↦ (some (bad_template key e), templates)
    | ok template ↦ read_templates sections (insert key template templates)
  ]

  -- the part behind the check of the routing rules
  unfoldable pub unmarshal_exporters :
      Outcome Text (GoMap Text (Outcome Text Section)) → Config → Option ConfigError × Config
  unfolding read_templates
  unmarshal_exporters (err e) cfg = (some (no_exporters e), cfg)
  unmarshal_exporters (ok sections) cfg =
      let (failed, templates) = read_templates sections cfg.exporter_templates in
      (failed, record cfg { exporter_templates = templates })

  unfoldable pub checked : Option RoutingError → Document → Config → Option ConfigError × Config
  unfolding unmarshal_exporters
  checked (some e) document cfg = (some (bad_routing e), cfg)
  checked none document cfg = unmarshal_exporters document.exporters cfg

  unfoldable pub decoded_settings :
      Outcome Text Settings → Document → Config → Option ConfigError × Config
  unfolding checked check_rules
  decoded_settings (err e) document cfg = (some (bad_settings e), cfg)
  decoded_settings (ok settings) document cfg =
      let cfg' = record cfg {
        watch_observers = settings.watch_observers;
        rules = settings.rules;
        default_exporters = settings.default_exporters;
      } in
      checked (check_rules 0 settings.rules) document cfg'

  -- `Config.Unmarshal`: the error, if there is one, and the configuration as it is left
  unfoldable pub unmarshal : Option Document → Config → Option ConfigError × Config
  unfolding decoded_settings
  unmarshal none cfg = (none, cfg)
  unmarshal (some document) cfg = decoded_settings document.settings document cfg
