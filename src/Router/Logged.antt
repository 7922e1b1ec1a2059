-- ===== src/Router/Logged.antt =====
-- Logging changes nothing that is routed.
use exportercreator.Prelude.{
  ℕ, ◌≡◌, ◌⊎◌, refl, ◌∙◌, arith, Bool, Bool-cases, inl, inr, List, [], ◌∷◌, Option, none, some,
  length, ◌=?◌, Text, text_Eq,
}
use exportercreator.Prelude.GoMap.{GoMap, lookup}
use exportercreator.Value.{Value, Fields, nil, text}
use exportercreator.Router.{
  RoutingRule, RoutedExporter, TelemetryRouter, same_value, matches_rule, matches_each,
  matches_all_rules, matched_of, matched_in, route,
}
use exportercreator.Router.Logs.{
  compare_logged, rule_logged, each_logged, all_logged, exporters_logged, endpoints_logged,
  route_logged,
}

pub some_or_none : (o : Option Text) → ((s : Text) × (o ≡ some s)) ⊎ (o ≡ none)
some_or_none none = inr refl
some_or_none (some s) = inl (s, refl)

module _ (composite type_text : Value → Text) (attrs : List (Text × Text)) where
  abbrev pub attribute : Text → Option Text
  attribute k = lookup k attrs

  compare_logged-same :
      (debug : Bool) (rule : RoutingRule) (s : Text) (properties : Fields) (v : Value)
      → (compare_logged composite type_text debug attrs rule s properties v).0
        ≡ same_value composite attribute s v
  unfolding compare_logged same_value
  compare_logged-same debug rule s properties nil = refl
  compare_logged-same debug rule s properties (text t) = ground arith
  compare_logged-same debug rule s properties v = ground arith

  rule_logged-same :
      (debug : Bool) (properties : Fields) (rule : RoutingRule)
      → (rule_logged composite type_text debug attrs properties rule).0
        ≡ matches_rule composite attribute properties rule
  unfolding rule_logged matches_rule
  rule_logged-same debug properties rule = elim (some_or_none (lookup rule.attribute_name attrs)) [
    | inl (s, e) ↦ rw (e, rule_logged, matches_rule) (compare_logged-same debug rule s properties _)
    | inr e ↦ rw (e, rule_logged, matches_rule) refl
  ]

  each_logged-same :
      (debug : Bool) (n : ℕ) (properties : Fields) (rules : List RoutingRule)
      → (each_logged composite type_text debug attrs n properties rules).0
        ≡ matches_each composite attribute properties rules
  unfolding each_logged matches_each
  each_logged-same debug n properties [] = refl
  each_logged-same debug n properties (rule ∷ rules) =
      let one = rule_logged-same debug properties rule in
      let rest = each_logged-same debug n properties rules in
      elim (Bool-cases (matches_rule composite attribute properties rule)) [
        | inl yes_ ↦ rw (one ∙ yes_, yes_) rest
        | inr no_ ↦ rw (one ∙ no_, no_) refl
      ]

  pub all_logged-same :
      (debug : Bool) (rules : List RoutingRule) (properties : Fields)
      → (all_logged composite type_text debug attrs rules properties).0
        ≡ matches_all_rules composite attribute rules properties
  unfolding all_logged matches_all_rules
  all_logged-same debug [] properties = refl
  all_logged-same debug (rule ∷ rules) properties =
      each_logged-same debug (length (rule ∷ rules)) properties (rule ∷ rules)

  exporters_logged-same :
      (debug : Bool) (rules : List RoutingRule) (id : Text) (res : List RoutedExporter)
      → (exporters_logged composite type_text debug attrs rules id res).0
        ≡ matched_of composite attribute rules res
  unfolding exporters_logged matched_of
  exporters_logged-same debug rules id [] = refl
  exporters_logged-same debug rules id (re ∷ res) =
      rw (all_logged-same debug rules re.properties, exporters_logged-same debug rules id res) refl

  endpoints_logged-same :
      (debug : Bool) (rules : List RoutingRule) (m : GoMap Text (List RoutedExporter))
      → (endpoints_logged composite type_text debug attrs rules m).0
        ≡ matched_in composite attribute rules m
  unfolding endpoints_logged matched_in
  endpoints_logged-same debug rules [] = refl
  endpoints_logged-same debug rules ((id, exps) ∷ m) =
      rw (exporters_logged-same debug rules id exps, endpoints_logged-same debug rules m) refl

  pub route_logged-same :
      (debug : Bool) (r : TelemetryRouter)
      → (route_logged composite type_text debug attrs r).0 ≡ route composite attribute r
  unfolding route_logged route
  route_logged-same debug r = elim (Bool-cases (length r.rules =? 0)) [
    | inl closed ↦ rw closed refl
    | inr some_rules ↦ elim (Bool-cases (r.count =? 0)) [
      | inl nobody ↦ rw (some_rules, nobody) refl
      | inr some_exporters ↦
          rw (some_rules, some_exporters) (endpoints_logged-same debug r.rules r.exporters)
    ]
  ]
