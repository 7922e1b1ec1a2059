-- ===== src/Config/Accepted.antt =====
-- What a configuration that `Config.Unmarshal` accepts holds.
use exportercreator.Prelude.{
  ◌≡◌, refl, ap, sym, ◌∙◌, Bool-cases, inl, inr, List, [], ◌∷◌, Option, none, some, All, Text,
  text_Eq, ◌==◌,
}
use exportercreator.Prelude.Outcome.{Outcome, ok, err}
use exportercreator.Prelude.GoMap.{GoMap, Distinct, lookup, insert, lookup-insert}
use exportercreator.Value.{Value, Fields}
use exportercreator.Component.{ComponentId}
use exportercreator.Expansion.{Evaluated}
use exportercreator.Config.{ExporterTemplate}
use exportercreator.Config.Routing.{RoutingError, check_rules, IsUsable, check_rules_iff}
use exportercreator.Config.Unmarshal.{
  Config, Section, Settings, Document, TemplateError, ConfigError, read_template, read_templates,
  unmarshal_exporters, checked, decoded_settings, unmarshal,
}
use exportercreator.Config.Template.{IsTemplate, read_template-IsTemplate, IsTemplate-read_template}

module _ (parse_id : Text → Outcome Text ComponentId) (to_string_map : Value → Fields)
    (observed : List Text) (compile : Text → Outcome Text (Fields → Evaluated)) where
  -- What is stored under a key: the template of its section, if it has one.
  abbrev pub IsStored :
      Text
      → Option (Outcome Text Section)
      → Option ExporterTemplate
      → Option ExporterTemplate
      → Type 0
  IsStored key none before now = now ≡ before
  IsStored key (some answer) before now =
      (t : ExporterTemplate) × (now ≡ some t)
      × IsTemplate parse_id to_string_map observed compile key answer t

  abbrev stored_after :
      GoMap Text (Outcome Text Section)
      → GoMap Text ExporterTemplate
      → Option ConfigError × GoMap Text ExporterTemplate
  stored_after = read_templates parse_id to_string_map observed compile

  read_templates-step :
      (k : Text) (answer : Outcome Text Section) (sections : GoMap Text (Outcome Text Section))
      (templates : GoMap Text ExporterTemplate)
      → (stored_after ((k, answer) ∷ sections) templates).0 ≡ none
      → (t : ExporterTemplate) × IsTemplate parse_id to_string_map observed compile k answer t
        × (stored_after ((k, answer) ∷ sections) templates
            ≡ stored_after sections (insert k t templates))
  unfolding read_templates
  read_templates-step k answer sections templates h =
      outcome (read_template parse_id to_string_map observed compile k answer) refl
    where
      outcome :
          (o : Outcome TemplateError ExporterTemplate)
          → read_template parse_id to_string_map observed compile k answer ≡ o
          → (t : ExporterTemplate) × IsTemplate parse_id to_string_map observed compile k answer t
            × (stored_after ((k, answer) ∷ sections) templates
                ≡ stored_after sections (insert k t templates))
      outcome (ok t) e = (
        t,
        read_template-IsTemplate parse_id to_string_map observed compile k answer t e,
        rw (e, read_templates) refl,
      )
      outcome (err cause) e = absurd (let q = rw (e, read_templates) at h in cc q)

  read_templates-IsStored :
      (sections : GoMap Text (Outcome Text Section)) (templates : GoMap Text ExporterTemplate)
      → Distinct sections
      → (stored_after sections templates).0 ≡ none
      → (key : Text)
      → IsStored key
          (lookup key sections)
          (lookup key templates)
          (lookup key (stored_after sections templates).1)
  unfolding lookup
  read_templates-IsStored [] templates d h key = unfold read_templates in refl
  read_templates-IsStored ((k, answer) ∷ sections) templates (absent, d) h key =
      let (t, is_t, e) = read_templates-step k answer sections templates h in
      let later =
        read_templates-IsStored sections (insert k t templates) d (ap (λ p. p.0) (sym e) ∙ h) key in
      let here = lookup-insert k key t templates in
      elim (Bool-cases (k == key)) [
        | inl same ↦
            let q : k ≡ key = (text_Eq.beq_iff k key).0 same in
            let gone : lookup key sections ≡ none = ap (λ i. lookup i sections) (sym q) ∙ absent in
            let now : lookup key (stored_after sections (insert k t templates)).1 ≡ some t =
              rw gone at later ∙ here ∙ rw same refl in
            rw (same, e) (t, now, rw q at is_t)
        | inr other ↦
            let kept : lookup key (insert k t templates) ≡ lookup key templates =
              here ∙ rw other refl in
            rw (other, e) (rw kept at later)
      ]

  -- every section makes a template
  abbrev pub AllTemplates : GoMap Text (Outcome Text Section) → Type 0
  AllTemplates [] = Unit {0}
  AllTemplates ((key, answer) ∷ sections) =
      ((t : ExporterTemplate) × IsTemplate parse_id to_string_map observed compile key answer t)
      × AllTemplates sections

  read_templates-none :
      (sections : GoMap Text (Outcome Text Section)) (templates : GoMap Text ExporterTemplate)
      → AllTemplates sections
      → (stored_after sections templates).0 ≡ none
  unfolding read_templates
  read_templates-none [] templates all = refl
  read_templates-none ((k, answer) ∷ sections) templates ((t, is_t), all) =
      let (t', e) =
        IsTemplate-read_template parse_id to_string_map observed compile k answer t is_t in
      rw (e, read_templates) (read_templates-none sections (insert k t' templates) all)

  -- What a document makes of a configuration `before`.
  pub record IsAccepted (document : Document) (before now : Config) : Type 0 where
    pub settings : Settings
    pub sections : GoMap Text (Outcome Text Section)
    pub decodes : document.settings ≡ ok settings
    pub opens : document.exporters ≡ ok sections
    pub usable : All IsUsable settings.rules
    pub rules : now.rules ≡ settings.rules
    pub watched : now.watch_observers ≡ settings.watch_observers
    pub defaults : now.default_exporters ≡ settings.default_exporters
    pub templates :
        Distinct sections
        → (key : Text)
        → IsStored key
            (lookup key sections)
            (lookup key before.exporter_templates)
            (lookup key now.exporter_templates)

  abbrev pub result : Document → Config → Option ConfigError × Config
  result document = unmarshal parse_id to_string_map observed compile (some document)

  accepted :
      (document : Document) (cfg : Config) (answer : Outcome Text Settings)
      (usable : Option RoutingError) (exporters : Outcome Text (GoMap Text (Outcome Text Section)))
      → document.settings ≡ answer
      → document.exporters ≡ exporters
      → ((settings : Settings) → answer ≡ ok settings → check_rules 0 settings.rules ≡ usable)
      → (result document cfg).0 ≡ none
      → IsAccepted document cfg (result document cfg).1
  unfolding unmarshal decoded_settings checked unmarshal_exporters
  accepted document cfg (err e) usable exporters q r checks h = absurd (cc (rw q at h))
  accepted document cfg (ok settings) (some e) exporters q r checks h =
      let c = checks settings refl in absurd (cc (rw c at (rw q at h)))
  accepted document cfg (ok settings) none (err e) q r checks h =
      let c = checks settings refl in absurd (cc (rw r at (rw c at (rw q at h))))
  accepted document cfg (ok settings) none (ok sections) q r checks h =
      let c = checks settings refl in
      let fine : (stored_after sections cfg.exporter_templates).0 ≡ none =
        rw r at (rw c at (rw q at h)) in
      rw (q, c, r)
        (record {
          settings = settings;
          sections = sections;
          decodes = refl;
          opens = refl;
          usable = (check_rules_iff settings.rules).0.0 c;
          rules = refl;
          watched = refl;
          defaults = refl;
          templates = λ d key. read_templates-IsStored sections cfg.exporter_templates d fine key;
        })

  -- A document is accepted if it decodes, its routing rules are usable, it has its section of
  -- exporters and each section in that makes a template; and when it is accepted all this is so: the
  -- configuration has its rules, observers and default exporters, and under each key, for distinct
  -- keys, the template of the section, else what was there. A template has the id that its key
  -- reads as, the section's map, a compiled rule, only strings for resource attributes, and the
  -- signals of its block, or all signals without one.
  pub unmarshal-IsAccepted :
      (document : Document) (cfg : Config)
      → ((result document cfg).0 ≡ none → IsAccepted document cfg (result document cfg).1)
        × ((settings : Settings) (sections : GoMap Text (Outcome Text Section))
            → document.settings ≡ ok settings
            → document.exporters ≡ ok sections
            → All IsUsable settings.rules
            → AllTemplates sections
            → (result document cfg).0 ≡ none)
  unfolding unmarshal decoded_settings checked unmarshal_exporters
  unmarshal-IsAccepted document cfg = (
    accepted document cfg document.settings (checks document.settings) document.exporters refl refl
        (is_checked document.settings),
    λ settings sections q r usable all.
        let c = (check_rules_iff settings.rules).0.1 usable in
        rw q (rw c (rw r (read_templates-none sections cfg.exporter_templates all))),
  )
    where
      checks : Outcome Text Settings → Option RoutingError
      checks (ok settings) = check_rules 0 settings.rules
      checks (err e) = none

      is_checked :
          (o : Outcome Text Settings) (settings : Settings)
          → o ≡ ok settings
          → check_rules 0 settings.rules ≡ checks o
      is_checked (ok s) settings e =
          let q : s ≡ settings = cc e in ap (λ (x : Settings). check_rules 0 x.rules) (sym q)
      is_checked (err x) settings e = absurd (cc e)
