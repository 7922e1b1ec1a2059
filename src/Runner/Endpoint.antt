-- ===== src/Runner/Endpoint.antt =====
-- The endpoint of a started exporter, from the template in the handler (`startExporter`) to the
-- configuration that the runner loads (`mergeTemplatedAndDiscoveredConfigs`).
use exportercreator.Prelude.{
  ◌≡◌, ◌⊎◌, refl, ap, sym, ◌∙◌, arith, Bool, true, false, not, inl, inr, [], Option, none, some,
  if◌then◌else◌, Text, text_Eq, text_eq,
}
use exportercreator.Prelude.Outcome.{Outcome, ok}
use exportercreator.Value.{Value, Fields, nil, text, end, field, find, at_key, DistinctKeys}
use exportercreator.Expansion.{Evaluated}
use exportercreator.Expansion.Tree.{expanded_entry}
use exportercreator.Expansion.Entries.{left_of}
use exportercreator.Config.{ExporterTemplate}
use exportercreator.Handler.{
  endpoint_config_key, tmp_set_endpoint_config_key, has_key, is_some, resolve_configs,
}
use exportercreator.Handler.Target.{IsResolved, resolve_configs-IsResolved}
use exportercreator.Runner.{Factory, template_target, template_has_endpoint, for_merge}
use exportercreator.Runner.Merged.{for_merge_lem}

-- confmap's Merge puts the entries of the second map over those of the first.
abbrev pub MergesOver : (Fields → Fields → Outcome Text Fields) → Type 0
MergesOver merge =
    (templated rest merged : Fields) (k : Text)
    → merge templated rest ≡ ok merged
    → (find k rest ≡ none → find k merged ≡ find k templated)
      × ((v : Value) → find k templated ≡ none → find k rest ≡ some v → find k merged ≡ some v)

has_key-false : (k : Text) (fs : Fields) → has_key k fs ≡ false → find k fs ≡ none
unfolding has_key
has_key-false k fs h = no_value (find k fs) h
  where
    no_value : (o : Option Value) → is_some o ≡ false → o ≡ none
    no_value none h = refl
    no_value (some v) h = absurd (cc h)

at_key-nil : (k : Text) (fs : Fields) → find k fs ≡ none → at_key k fs ≡ nil
unfolding find at_key
at_key-nil k end h = refl
at_key-nil k (field j v fs) h = ground (arith, at_key-nil k fs)

some_or_none : (o : Option Value) → ((v : Value) × (o ≡ some v)) ⊎ (o ≡ none)
some_or_none none = inr refl
some_or_none (some v) = inl (v, refl)

module _ (to_text : Value → Text) (factory : Factory) where
  no_endpoint :
      (resolved : Fields)
      → to_text nil ≡ []
      → find endpoint_config_key resolved ≡ none
      → template_has_endpoint to_text factory resolved ≡ false
  unfolding template_has_endpoint template_target
  no_endpoint resolved renders missing =
      let q : to_text (at_key endpoint_config_key resolved) ≡ [] =
        ap to_text (at_key-nil endpoint_config_key resolved missing) ∙ renders in
      rw q refl

  -- What is merged for the endpoint, of a discovered configuration with the mark.
  offered :
      (resolved discovered : Fields)
      → to_text nil ≡ []
      → find endpoint_config_key resolved ≡ none
      → has_key tmp_set_endpoint_config_key discovered ≡ true
      → let (t, rest) = for_merge to_text factory resolved discovered in
        (find tmp_set_endpoint_config_key rest ≡ none)
        × (find endpoint_config_key rest ≡ (
            if not (factory.accepts_endpoint t) then none else find endpoint_config_key discovered))
  unfolding text_eq
  offered resolved discovered renders missing marked =
      let none_ = no_endpoint resolved renders missing in
      let at = λ (k : Text). (for_merge_lem to_text factory resolved discovered k).0 marked in
      (at tmp_set_endpoint_config_key, rw none_ at (at endpoint_config_key))

  merged_over :
      (merge : Fields → Fields → Outcome Text Fields) (resolved rest merged : Fields) (k : Text)
      → MergesOver merge
      → merge resolved rest ≡ ok merged
      → find k resolved ≡ none
      → find k merged ≡ find k rest
  merged_over merge resolved rest merged k over h missing =
      let (from_template, from_rest) = over resolved rest merged k h in
      elim (some_or_none (find k rest)) [
        | inl (v, e) ↦ from_rest v missing e ∙ sym e
        | inr e ↦ from_template e ∙ missing ∙ sym e
      ]

  module _ (composite : Value → Text) (eval : Text → Fields → Evaluated) (env : Fields)
      (merge : Fields → Fields → Outcome Text Fields) where
    -- What the factory loads, of the configurations that the handler gives to the runner. `own` is
    -- the template's configuration.
    pub record IsMerged (own : Fields) (target : Text) (resolved merged : Fields) (t : Text)
        : Type 0 where
      -- a template's endpoint is never overridden: what it expands to is loaded
      pub keeps :
          has_key endpoint_config_key own ≡ true
          → (o : Option Value) × (expanded_entry composite eval env (find endpoint_config_key own)
              ≡ ok o)
            × (find endpoint_config_key merged ≡ left_of o)
            × (has_key endpoint_config_key merged ≡ true)
      -- without one, the discovered target is used where the factory takes it
      pub takes :
          has_key endpoint_config_key own ≡ false
          → factory.accepts_endpoint t ≡ true
          → expanded_entry composite eval env (some (text target))
            ≡ ok (find endpoint_config_key merged)
      pub leaves_out :
          has_key endpoint_config_key own ≡ false
          → factory.accepts_endpoint t ≡ false
          → find endpoint_config_key merged ≡ none
      -- the mark of the handler reaches no factory
      pub unmarked :
          find tmp_set_endpoint_config_key merged ≡ find tmp_set_endpoint_config_key resolved

    -- When the handler starts a template and the runner merges what it is given: an endpoint that the
    -- template has is the endpoint that is loaded, as the template's own entry expands and whatever
    -- was discovered; a template without one gets what the discovered target expands to, if the
    -- factory's configuration takes an endpoint, and otherwise none; and the handler's mark is not in
    -- what is loaded.
    pub for_merge-IsMerged :
        (template : ExporterTemplate) (target : Text) (resolved discovered merged : Fields)
        → to_text nil ≡ []
        → MergesOver merge
        → DistinctKeys template.exporter_config.config
        → resolve_configs composite eval template env target ≡ some (resolved, discovered)
        → let (t, rest) = for_merge to_text factory resolved discovered in
          merge resolved rest ≡ ok merged
          → IsMerged template.exporter_config.config target resolved merged t
    unfolding has_key find
    for_merge-IsMerged template target resolved discovered merged renders over keys h m =
        let is =
          resolve_configs-IsResolved composite eval env template target resolved discovered keys
            h in
        by_own (has_key endpoint_config_key template.exporter_config.config) refl is
      where
        own : Fields
        own = template.exporter_config.config

        t : Text
        t = (for_merge to_text factory resolved discovered).0

        rest : Fields
        rest = (for_merge to_text factory resolved discovered).1

        by_own :
            (b : Bool)
            → has_key endpoint_config_key own ≡ b
            → IsResolved composite eval env own target resolved discovered
            → IsMerged own target resolved merged t
        by_own true had is =
            let nothing : discovered ≡ end = (is.chosen had).1 in
            let no_mark : has_key tmp_set_endpoint_config_key discovered ≡ false =
              ap (has_key tmp_set_endpoint_config_key) nothing in
            let e : rest ≡ end =
              (for_merge_lem to_text factory resolved discovered endpoint_config_key).1 no_mark
              ∙ nothing in
            let m' : merge resolved end ≡ ok merged = rw e at m in
            record {
              keeps = λ had'.
                  let (o, expands, left) = is.own endpoint_config_key in
                  let kept = (over resolved end merged endpoint_config_key m').0 refl in
                  (o, expands, kept ∙ left, ap is_some kept ∙ (is.chosen had').0);
              takes = λ had_not. absurd (let q : true ≡ false = sym had ∙ had_not in cc q);
              leaves_out = λ had_not. absurd (let q : true ≡ false = sym had ∙ had_not in cc q);
              unmarked = (over resolved end merged tmp_set_endpoint_config_key m').0 refl;
            }
        by_own false had_not is =
            let (absent, expands) = is.inherited had_not in
            let missing = has_key-false endpoint_config_key resolved absent in
            let (mark, endpoint) =
              offered resolved discovered renders missing (is.marked had_not) in
            let loaded =
              merged_over merge resolved rest merged endpoint_config_key over m missing in
            record {
              keeps = λ had. absurd (let q : false ≡ true = sym had_not ∙ had in cc q);
              takes = λ had' accepts.
                  expands ∙ ap (λ o. ok o) (sym (loaded ∙ endpoint ∙ rw accepts refl));
              leaves_out = λ had' refuses. loaded ∙ endpoint ∙ rw refuses refl;
              unmarked = (over resolved rest merged tmp_set_endpoint_config_key m).0 mark;
            }
