-- ===== src/Config/Template.antt =====
-- What a section of the configuration has to be for a template, and the template that it makes.
use exportercreator.Prelude.{◌≡◌, ◌↔◌, refl, ap, sym, ◌∙◌, List, Option, Text, text_Eq}
use exportercreator.Prelude.Outcome.{Outcome, ok, err, >>=-eq-ok}
use exportercreator.Value.{Value, Fields, text, end, field}
use exportercreator.Component.{ComponentId}
use exportercreator.Expansion.{Evaluated}
use exportercreator.Rules.Pattern.{new_rule}
use exportercreator.Config.{ExporterConfig, ExporterSignals, ExporterTemplate}
use exportercreator.Config.Signals.{signals_from_config}
use exportercreator.Config.Unmarshal.{
  Section, map_err, endpoint_id_text, all_enabled, check_attributes, signals_or,
  new_exporter_template, read_template, no_section, bad_id, not_decoded, bad_rule, bad_signals,
}

map_err-ok : {E F A : Type 0} (f : E → F) (o : Outcome E A) (x : A) → map_err f o ≡ ok x → o ≡ ok x
map_err-ok f (ok y) x h = let q : y ≡ x = cc h in ap (λ z. ok z) q
map_err-ok f (err e) x h = absurd (cc h)

-- Every resource attribute is a string.
abbrev pub IsStrings : Fields → Type 0
IsStrings end = Unit {0}
IsStrings (field k v fs) = ((s : Text) × (v ≡ text s)) × IsStrings fs

check_attributes_iff : (fs : Fields) → (check_attributes fs ≡ ok tt) ↔ IsStrings fs
unfolding check_attributes
check_attributes_iff end = (λ h. tt, λ h. refl)
check_attributes_iff (field j (text s) fs) =
    let rest = check_attributes_iff fs in (λ h. ((s, refl), rest.0 h), λ (is_text, h). rest.1 h)
check_attributes_iff (field j v fs) =
    (λ h. absurd (cc h), λ ((s, e), h). absurd (let q = e in cc q))

module _ (parse_id : Text → Outcome Text ComponentId) (to_string_map : Value → Fields)
    (observed : List Text) (compile : Text → Outcome Text (Fields → Evaluated)) where
  -- What the section of a template makes of it.
  pub record IsTemplate (key : Text) (answer : Outcome Text Section) (t : ExporterTemplate)
      : Type 0 where
    pub section : Section
    pub answered : answer ≡ ok section
    pub identified : parse_id key ≡ ok t.exporter_config.id
    pub configured : t.exporter_config.config ≡ to_string_map section.config
    pub at_endpoint : t.exporter_config.endpoint_id ≡ endpoint_id_text
    pub decoded :
        section.decoded
        ≡ ok (record { rule_text = t.rule_text; resource_attributes = t.resource_attributes })
    pub ruled : new_rule observed compile t.rule_text ≡ ok t.rule
    pub strings : IsStrings t.resource_attributes
    pub selection : Option ExporterSignals
    pub selected : signals_from_config section.signals ≡ ok selection
    pub signalled : t.signals ≡ signals_or all_enabled selection

  pub read_template-IsTemplate :
      (key : Text) (answer : Outcome Text Section) (t : ExporterTemplate)
      → read_template parse_id to_string_map observed compile key answer ≡ ok t
      → IsTemplate key answer t
  unfolding read_template new_exporter_template
  read_template-IsTemplate key answer t h =
      let (section, e1, h1) = >>=-eq-ok (map_err no_section answer) _ h in
      let ((cfg, enabled), e2, h2) =
        >>=-eq-ok
          (map_err bad_id (
            new_exporter_template parse_id to_string_map observed compile key
              (to_string_map section.config)))
          _ h1 in
      let (id, e2', h2') = >>=-eq-ok (parse_id key) _ (map_err-ok bad_id _ _ e2) in
      let made : (record {
        id = id;
        config = to_string_map section.config;
        endpoint_id = endpoint_id_text;
      })
          ≡ cfg =
        cc h2' in
      let all_on : all_enabled ≡ enabled = cc h2' in
      let (decoded, e3, h3) = >>=-eq-ok (map_err not_decoded section.decoded) _ h2 in
      let (rule, e4, h4) =
        >>=-eq-ok (map_err bad_rule (new_rule observed compile decoded.rule_text)) _ h3 in
      let (done, e5, h5) = >>=-eq-ok (check_attributes decoded.resource_attributes) _ h4 in
      let (selection, e6, h6) =
        >>=-eq-ok (map_err bad_signals (signals_from_config section.signals)) _ h5 in
      let is_t : (record {
        exporter_config = cfg;
        rule_text = decoded.rule_text;
        resource_attributes = decoded.resource_attributes;
        rule = rule;
        signals = signals_or enabled selection;
      })
          ≡ t =
        cc h6 in
      rw (sym is_t) (record {
        section = section;
        answered = map_err-ok no_section answer section e1;
        identified = e2' ∙ ap (λ (c : ExporterConfig). ok c.id) made;
        configured = sym (ap (λ (c : ExporterConfig). c.config) made);
        at_endpoint = sym (ap (λ (c : ExporterConfig). c.endpoint_id) made);
        decoded = map_err-ok not_decoded section.decoded decoded e3;
        ruled = map_err-ok bad_rule _ rule e4;
        strings = (check_attributes_iff decoded.resource_attributes).0 e5;
        selection = selection;
        selected = map_err-ok bad_signals _ selection e6;
        signalled = ap (λ s. signals_or s selection) (sym all_on);
      })

  pub IsTemplate-read_template :
      (key : Text) (answer : Outcome Text Section) (t : ExporterTemplate)
      → IsTemplate key answer t
      → (t' : ExporterTemplate) × (read_template parse_id to_string_map observed compile key answer
          ≡ ok t')
  unfolding read_template new_exporter_template
  IsTemplate-read_template key answer t w =
      let all_strings = (check_attributes_iff t.resource_attributes).1 w.strings in
      (
        record {
          exporter_config = record {
            id = t.exporter_config.id;
            config = to_string_map w.section.config;
            endpoint_id = endpoint_id_text;
          };
          rule_text = t.rule_text;
          resource_attributes = t.resource_attributes;
          rule = t.rule;
          signals = signals_or all_enabled w.selection;
        },
        rw (w.answered, w.identified, w.decoded, w.ruled, all_strings, w.selected) refl,
      )
