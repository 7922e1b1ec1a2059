-- ===== src/Handler/Target.antt =====
-- Which endpoint a started exporter is given (`startExporter`): the template's own, or else the one
-- that was discovered.
use exportercreator.Prelude.{
  ◌≡◌, refl, ap, [], ◌∷◌, sym, ◌∙◌, Option, none, some, Bool, true, false, ◌&&◌, not, if◌then◌else◌,
  Text, text_Eq, text_eq,
}
use exportercreator.Prelude.Outcome.{Outcome, ok, err}
use exportercreator.Value.{Value, Fields, text, other, end, field, find, DistinctKeys}
use exportercreator.Expansion.{
  Evaluated, ExpandError, expand_any, expand_config, expand_fields, remove_nil_values_from_map,
}
use exportercreator.Expansion.Prune.{AreClean, remove_nil_values_from_map_lem}
use exportercreator.Expansion.Entries.{left_of, find-remove_nil_values_from_map}
use exportercreator.Expansion.Tree.{
  expanded_entry, absent, find-expand_config, expand_config-DistinctKeys,
}
use exportercreator.Config.{ExporterTemplate}
use exportercreator.Handler.{
  endpoint_config_key, tmp_set_endpoint_config_key, is_some, has_key, discovered_cfg, discover,
  resolve_configs,
}

module _ (composite : Value → Text) (eval : Text → Fields → Evaluated) (env : Fields) where
  -- What the runner is given: under each key what the template's entry expands to, without nil
  -- values and empty maps; and where the template has an endpoint, nothing that was discovered, and
  -- otherwise what the discovered target expands to.
  pub record IsResolved (cfg : Fields) (target : Text) (resolved discovered : Fields) : Type 0 where
    pub clean : AreClean resolved
    pub own :
        (k : Text)
        → (o : Option Value) × (expanded_entry composite eval env (find k cfg) ≡ ok o)
          × (find k resolved ≡ left_of o)
    pub chosen :
        has_key endpoint_config_key cfg ≡ true
        → (has_key endpoint_config_key resolved ≡ true) × (discovered ≡ end)
    pub inherited :
        has_key endpoint_config_key cfg ≡ false
        → (has_key endpoint_config_key resolved ≡ false)
          × (expanded_entry composite eval env (some (text target))
              ≡ ok (find endpoint_config_key discovered))
    pub marked :
        has_key endpoint_config_key cfg ≡ false
        → has_key tmp_set_endpoint_config_key discovered ≡ true

  resolved_absent :
      (cfg expanded : Fields)
      → DistinctKeys cfg
      → expand_config composite eval cfg env ≡ ok expanded
      → has_key endpoint_config_key cfg ≡ false
      → has_key endpoint_config_key (remove_nil_values_from_map expanded) ≡ false
  unfolding has_key
  resolved_absent cfg expanded d h missing =
      let k = endpoint_config_key in
      let no_entry : find k cfg ≡ none = is_none (find k cfg) missing in
      let gone : find k expanded ≡ none = absent (find k expanded) (
        sym (find-expand_config composite eval env cfg expanded k d h)
        ∙ ap (expanded_entry composite eval env) no_entry) in
      ap is_some (
        find-remove_nil_values_from_map expanded k
          (expand_config-DistinctKeys composite eval env cfg expanded d h)
        ∙ ap left_of gone)
    where
      is_none : (o : Option Value) → is_some o ≡ false → o ≡ none
      is_none none h = refl
      is_none (some v) h = cc

  -- `discover` succeeds with what it is given and an expansion of the discovered map.
  discover-some :
      (resolved : Fields) (target : Text) (r d : Fields)
      → discover composite eval resolved env target ≡ some (r, d)
      → (r ≡ resolved) × (expand_config composite eval (discovered_cfg resolved target) env ≡ ok d)
  unfolding discover
  discover-some resolved target r d h =
      from (expand_config composite eval (discovered_cfg resolved target) env) h
    where
      from :
          (o : Outcome ExpandError Fields)
          → (elim o as (λ x. Option (Fields × Fields)) [
            | ok found ↦ some (resolved, found)
            | err e ↦ none
          ])
            ≡ some (r, d)
          → (r ≡ resolved) × (o ≡ ok d)
      from (ok found) q = (cc, cc)
      from (err e) q = cc

  -- the discovered map of a template without an endpoint
  abbrev with_mark : Text → Fields
  with_mark target =
      field endpoint_config_key (text target)
        (field tmp_set_endpoint_config_key (other (b'{' ∷ b'}' ∷ [])) end)

  discovered_end :
      (resolved : Fields) (target : Text) (d : Fields)
      → has_key endpoint_config_key resolved ≡ true
      → expand_config composite eval (discovered_cfg resolved target) env ≡ ok d
      → d ≡ end
  unfolding discovered_cfg expand_config expand_fields
  discovered_end resolved target d has h =
      let q : expand_config composite eval end env ≡ ok d =
        sym (ap (λ b. expand_config composite eval (if b then end else with_mark target) env) has)
        ∙ h in
      let e : end ≡ d = cc q in sym e

  discovered_target :
      (resolved : Fields) (target : Text) (d : Fields)
      → has_key endpoint_config_key resolved ≡ false
      → expand_config composite eval (discovered_cfg resolved target) env ≡ ok d
      → expanded_entry composite eval env (some (text target)) ≡ ok (find endpoint_config_key d)
  unfolding discovered_cfg find text_eq
  discovered_target resolved target d has h =
      let q : expand_config composite eval (with_mark target) env ≡ ok d =
        sym (ap (λ b. expand_config composite eval (if b then end else with_mark target) env) has)
        ∙ h in
      find-expand_config composite eval env (with_mark target) d endpoint_config_key
        (refl, (refl, tt)) q

  discovered_mark :
      (resolved : Fields) (target : Text) (d : Fields)
      → has_key endpoint_config_key resolved ≡ false
      → expand_config composite eval (discovered_cfg resolved target) env ≡ ok d
      → has_key tmp_set_endpoint_config_key d ≡ true
  unfolding discovered_cfg find text_eq has_key expand_any
  discovered_mark resolved target d has h =
      let q : expand_config composite eval (with_mark target) env ≡ ok d =
        sym (ap (λ b. expand_config composite eval (if b then end else with_mark target) env) has)
        ∙ h in
      let r =
        find-expand_config composite eval env (with_mark target) d tmp_set_endpoint_config_key
          (refl, (refl, tt)) q in
      let e : some (other (b'{' ∷ b'}' ∷ [])) ≡ find tmp_set_endpoint_config_key d = cc r in
      ap is_some (sym e)

  -- the test on the endpoint that expanded to nothing
  passed :
      (had has : Bool) (o : Option (Fields × Fields)) (p : Fields × Fields)
      → (if had && not has then none else o) ≡ some p
      → (o ≡ some p) × (had ≡ true → has ≡ true)
  passed true true o p h = (h, λ t. refl)
  passed true false o p h = cc
  passed false has o p h = (h, λ t. cc)

  expanded-IsResolved :
      (cfg expanded : Fields) (target : Text) (resolved discovered : Fields)
      → DistinctKeys cfg
      → expand_config composite eval cfg env ≡ ok expanded
      → (let cleaned = remove_nil_values_from_map expanded in
          (if has_key endpoint_config_key cfg && not (has_key endpoint_config_key cleaned)
            then none
            else discover composite eval cleaned env target)
          ≡ some (resolved, discovered))
      → IsResolved cfg target resolved discovered
  expanded-IsResolved cfg expanded target resolved discovered keys expands h =
      let cleaned = remove_nil_values_from_map expanded in
      let (found, kept) = passed _ _ _ _ h in
      let (same, expands') = discover-some cleaned target resolved discovered found in
      record {
        clean = rw same (remove_nil_values_from_map_lem expanded).0;
        own = λ k. (
          find k expanded,
          find-expand_config composite eval env cfg expanded k keys expands,
          ap (find k) same
              ∙ find-remove_nil_values_from_map expanded k
                  (expand_config-DistinctKeys composite eval env cfg expanded keys expands),
        );
        chosen = λ had. (
          ap (has_key endpoint_config_key) same ∙ kept had,
          discovered_end cleaned target discovered (kept had) expands',
        );
        inherited = λ had_not.
            let missing = resolved_absent cfg expanded keys expands had_not in
            (
              ap (has_key endpoint_config_key) same ∙ missing,
              discovered_target cleaned target discovered missing expands',
            );
        marked = λ had_not.
            discovered_mark cleaned target discovered
              (resolved_absent cfg expanded keys expands had_not) expands';
      }

  -- What `startExporter` gives to the runner, when it comes that far with a template whose keys are
  -- distinct: a configuration that has under every key what the template's own entry expands to,
  -- without nil values and empty maps; where the template has an endpoint, that is in it, and nothing
  -- was discovered; and otherwise no endpoint in the configuration, and in
  -- the discovered one the mark, and under the endpoint's key what the target expands to.
  pub resolve_configs-IsResolved :
      (template : ExporterTemplate) (target : Text) (resolved discovered : Fields)
      → DistinctKeys template.exporter_config.config
      → resolve_configs composite eval template env target ≡ some (resolved, discovered)
      → IsResolved template.exporter_config.config target resolved discovered
  unfolding resolve_configs
  resolve_configs-IsResolved template target resolved discovered keys h =
      from (expand_config composite eval cfg env) refl h
    where
      cfg : Fields
      cfg = template.exporter_config.config

      from :
          (o : Outcome ExpandError Fields)
          → expand_config composite eval cfg env ≡ o
          → (elim o as (λ x. Option (Fields × Fields)) [
            | err e ↦ none
            | ok expanded ↦
                let cleaned = remove_nil_values_from_map expanded in
                if has_key endpoint_config_key cfg && not (has_key endpoint_config_key cleaned)
                then none
                else discover composite eval cleaned env target
          ])
            ≡ some (resolved, discovered)
          → IsResolved cfg target resolved discovered
      from (err e) expands q = cc
      from (ok expanded) expands q =
          expanded-IsResolved cfg expanded target resolved discovered keys expands q
