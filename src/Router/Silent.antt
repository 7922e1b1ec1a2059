-- ===== src/Router/Silent.antt =====
-- Without debug level `Route` logs nothing.
use exportercreator.Prelude.{
  ℕ, ◌≡◌, refl, false, Bool-cases, inl, inr, List, [], ◌∷◌, length, ◌=?◌, Text, text_Eq,
}
use exportercreator.Prelude.GoMap.{GoMap}
use exportercreator.Value.{Value, Fields}
use exportercreator.Router.{RoutingRule, RoutedExporter, TelemetryRouter}
use exportercreator.Router.Logs.{
  rule_logged, each_logged, all_logged, exporters_logged, endpoints_logged, closing_lines,
  route_logged,
}

module _ (composite type_text : Value → Text) (attrs : List (Text × Text)) where
  silent :
      (n : ℕ) (properties : Fields) (rules : List RoutingRule)
      → (each_logged composite type_text false attrs n properties rules).1 ≡ []
  unfolding each_logged
  silent n properties [] = refl
  silent n properties (rule ∷ rules) =
      elim (Bool-cases (rule_logged composite type_text false attrs properties rule).0) [
        | inl yes_ ↦ rw yes_ (silent n properties rules)
        | inr no_ ↦ rw no_ refl
      ]

  silent_all :
      (rules : List RoutingRule) (properties : Fields)
      → (all_logged composite type_text false attrs rules properties).1 ≡ []
  unfolding all_logged
  silent_all [] properties = refl
  silent_all (rule ∷ rules) properties = silent (length (rule ∷ rules)) properties (rule ∷ rules)

  silent_exporters :
      (rules : List RoutingRule) (id : Text) (res : List RoutedExporter)
      → (exporters_logged composite type_text false attrs rules id res).1 ≡ []
  unfolding exporters_logged
  silent_exporters rules id [] = refl
  silent_exporters rules id (re ∷ res) =
      rw (silent_all rules re.properties, silent_exporters rules id res) refl

  silent_endpoints :
      (rules : List RoutingRule) (m : GoMap Text (List RoutedExporter))
      → (endpoints_logged composite type_text false attrs rules m).1 ≡ []
  unfolding endpoints_logged
  silent_endpoints rules [] = refl
  silent_endpoints rules ((id, exps) ∷ m) =
      rw (silent_exporters rules id exps, silent_endpoints rules m) refl

  pub silent_route : (r : TelemetryRouter) → (route_logged composite type_text false attrs r).1 ≡ []
  unfolding route_logged closing_lines
  silent_route r = elim (Bool-cases (length r.rules =? 0)) [
    | inl closed ↦ rw closed refl
    | inr some_rules ↦ elim (Bool-cases (r.count =? 0)) [
      | inl nobody ↦ rw (some_rules, nobody) refl
      | inr some_exporters ↦
          rw (some_rules, some_exporters, silent_endpoints r.rules r.exporters) refl
    ]
  ]
