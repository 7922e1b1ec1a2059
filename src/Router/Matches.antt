-- ===== src/Router/Matches.antt =====
-- What it means for an exporter's properties to match the routing rules, and that the loop of
-- `matchesAllRules` decides it.
use exportercreator.Prelude.{
  ◌≡◌, ◌≢◌, ◌↔◌, refl, sym, ap, ◌∙◌, true, false, List, [], ◌∷◌, Option, none, some, All,
  Bool-cases, inl, inr, Text, text_Eq, Option-cases,
}
use exportercreator.Value.{Value, Fields, nil, text, to_string}
use exportercreator.Path.{get_nested_property}
use exportercreator.Router.{RoutingRule, same_value, matches_rule, matches_each, matches_all_rules}

module _ (composite : Value → Text) (attribute : Text → Option Text) where
  -- The resource has the rule's attribute, the endpoint has the rule's property, and the two read
  -- the same as strings.
  pub record RuleMatches (properties : Fields) (rule : RoutingRule) : Type 0 where
    pub value : Text
    pub has_attribute : attribute rule.attribute_name ≡ some value
    pub property : Value
    pub has_property : get_nested_property properties rule.endpoint_property ≡ property
    pub not_nil : property ≢ nil
    pub agree : to_string composite property ≡ value

  abbrev pub Matches : List RoutingRule → Fields → Type 0
  Matches rules properties = (rules ≢ []) × All (RuleMatches properties) rules

  same_value_iff :
      (s : Text) (v : Value)
      → (same_value composite attribute s v ≡ true) ↔ ((v ≢ nil) × (to_string composite v ≡ s))
  unfolding same_value
  same_value_iff s nil = (λ e. absurd cc, λ h. absurd (h.0 refl))
  same_value_iff s (text t) =
      let shown = to_string composite (text t) in
      (λ e. (cc, sym ((text_Eq.beq_iff s shown).0 e)), λ h. (text_Eq.beq_iff s shown).1 (sym h.1))
  same_value_iff s v = (
    λ e. (cc, sym ((text_Eq.beq_iff s (to_string composite v)).0 e)),
    λ h. (text_Eq.beq_iff s (to_string composite v)).1 (sym h.1),
  )

  matches_rule-some :
      (properties : Fields) (rule : RoutingRule) (s : Text)
      → attribute rule.attribute_name ≡ some s
      → matches_rule composite attribute properties rule
        ≡ same_value composite attribute s (get_nested_property properties rule.endpoint_property)
  unfolding matches_rule
  matches_rule-some properties rule s e = rw (e, matches_rule)

  matches_rule-none :
      (properties : Fields) (rule : RoutingRule)
      → attribute rule.attribute_name ≡ none
      → matches_rule composite attribute properties rule ≡ false
  unfolding matches_rule
  matches_rule-none properties rule e = rw (e, matches_rule)

  matches_rule_sound :
      (properties : Fields) (rule : RoutingRule)
      → matches_rule composite attribute properties rule ≡ true
      → RuleMatches properties rule
  matches_rule_sound properties rule h = elim (Option-cases (attribute rule.attribute_name)) [
    | inl e ↦ absurd (let f = matches_rule-none properties rule e in cc)
    | inr (s, e) ↦
        let v = get_nested_property properties rule.endpoint_property in
        let (filled, agree) =
          (same_value_iff s v).0 (sym (matches_rule-some properties rule s e) ∙ h) in
        record {
          value = s;
          has_attribute = e;
          property = v;
          has_property = refl;
          not_nil = filled;
          agree = agree;
        }
  ]

  matches_rule_complete :
      (properties : Fields) (rule : RoutingRule)
      → RuleMatches properties rule
      → matches_rule composite attribute properties rule ≡ true
  matches_rule_complete properties rule m =
      matches_rule-some properties rule m.value m.has_attribute
      ∙ ap (same_value composite attribute m.value) m.has_property
      ∙ (same_value_iff m.value m.property).1 (m.not_nil, m.agree)

  matches_each_iff :
      (properties : Fields) (rules : List RoutingRule)
      → (matches_each composite attribute properties rules ≡ true)
        ↔ All (RuleMatches properties) rules
  unfolding matches_each
  matches_each_iff properties [] = (λ h. tt, λ h. refl)
  matches_each_iff properties (rule ∷ rules) =
      let ih = matches_each_iff properties rules in
      (
        λ h. elim (Bool-cases (matches_rule composite attribute properties rule)) [
          | inl e ↦ (matches_rule_sound properties rule e, ih.0 (rw e at h))
          | inr e ↦ absurd (let f = rw e at h in cc)
        ],
        λ h. rw (matches_rule_complete properties rule h.0) (ih.1 h.1),
      )

  -- `matchesAllRules` answers true exactly when there is a rule and every rule matches: the
  -- resource has its attribute, the endpoint has its property, and they read the same.
  pub matches_all_rules_iff :
      (rules : List RoutingRule) (properties : Fields)
      → (matches_all_rules composite attribute rules properties ≡ true) ↔ Matches rules properties
  unfolding matches_all_rules
  matches_all_rules_iff [] properties = (λ h. absurd cc, λ h. absurd (h.0 refl))
  matches_all_rules_iff (rule ∷ rules) properties =
      let each = matches_each_iff properties (rule ∷ rules) in
      (λ h. (cc, each.0 h), λ h. each.1 h.1)
