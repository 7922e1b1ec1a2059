-- ===== src/Router/Verdicts.antt =====
-- What the log of `Route` says of each exporter.
use mathlib.Core.List.{append-nil}
use exportercreator.Prelude.{
  ℕ, suc, ◌≡◌, refl, ap, ◌∙◌, Bool, true, false, Bool-cases, inl, inr, List, [], ◌∷◌, ◌++◌,
  if◌then◌else◌, length, ◌=?◌, Text, text_Eq, ◌==◌,
}
use exportercreator.Prelude.GoMap.{GoMap, lookup}
use exportercreator.Value.{Value, Fields, nil, text, end, field, to_string, find}
use exportercreator.Router.{RoutingRule, RoutedExporter, TelemetryRouter, matches_all_rules, route}
use exportercreator.Router.Logs.{
  LogLine, routing, verdict, none_matched, all_exporters_matched, attrs_to_map,
  resource_attribute_props, with_labels, line_unless_empty, property_lines_of, property_lines,
  rule_lines, logged, compare_logged, rule_logged, each_logged, all_logged, exporters_logged,
  endpoints_logged, closing_lines, route_logged, labels_key,
}
use exportercreator.Router.Logged.{attribute, some_or_none, all_logged-same, route_logged-same}
use exportercreator.Router.Silent.{silent_route}

-- The verdicts in a log: the endpoint of each exporter, and whether it matched.
abbrev pub verdicts : List LogLine → List (Text × Bool)
verdicts [] = []
verdicts (verdict b id shown props ∷ lines) = (id, b) ∷ verdicts lines
verdicts (routing shown rules count ∷ lines) = verdicts lines
verdicts (line ∷ lines) = verdicts lines

verdicts-append : (xs ys : List LogLine) → verdicts (xs ++ ys) ≡ verdicts xs ++ verdicts ys
verdicts-append [] ys = refl
verdicts-append (verdict b id shown props ∷ xs) ys =
    ap (λ (t : List (Text × Bool)). (id, b) ∷ t) (verdicts-append xs ys)
verdicts-append (routing shown rules count ∷ xs) ys = verdicts-append xs ys
verdicts-append (line ∷ xs) ys = verdicts-append xs ys

module _ (composite type_text : Value → Text) (attrs : List (Text × Text)) where
  -- What is to be said of each exporter.
  abbrev pub decisions_of : List RoutingRule → Text → List RoutedExporter → List (Text × Bool)
  decisions_of rules id [] = []
  decisions_of rules id (re ∷ res) =
      (id, matches_all_rules composite (attribute composite type_text attrs) rules re.properties)
      ∷ decisions_of rules id res

  abbrev pub decisions : List RoutingRule → GoMap Text (List RoutedExporter) → List (Text × Bool)
  decisions rules [] = []
  decisions rules ((id, exps) ∷ m) = decisions_of rules id exps ++ decisions rules m

  compare_line :
      (debug : Bool) (rule : RoutingRule) (s : Text) (properties : Fields) (v : Value)
      (lines : List LogLine)
      → verdicts ((compare_logged composite type_text debug attrs rule s properties v).1 ∷ lines)
        ≡ verdicts lines
  unfolding compare_logged
  compare_line debug rule s properties nil lines = refl
  compare_line debug rule s properties (text t) lines =
      elim (Bool-cases (s == to_string composite (text t))) [
        | inl same ↦ rw same refl
        | inr other ↦ rw other refl
      ]
  compare_line debug rule s properties v lines = elim (Bool-cases (s == to_string composite v)) [
    | inl same ↦ rw same refl
    | inr other ↦ rw other refl
  ]

  rule_line :
      (debug : Bool) (properties : Fields) (rule : RoutingRule) (lines : List LogLine)
      → verdicts ((rule_logged composite type_text debug attrs properties rule).1 ∷ lines)
        ≡ verdicts lines
  unfolding rule_logged
  rule_line debug properties rule lines = elim (some_or_none (lookup rule.attribute_name attrs)) [
    | inl (s, e) ↦ rw (e, rule_logged) (compare_line debug rule s properties _ lines)
    | inr e ↦ rw (e, rule_logged) refl
  ]

  each_logged-verdicts :
      (debug : Bool) (n : ℕ) (properties : Fields) (rules : List RoutingRule)
      → verdicts (each_logged composite type_text debug attrs n properties rules).1 ≡ []
  unfolding each_logged
  each_logged-verdicts true n properties [] = refl
  each_logged-verdicts false n properties [] = refl
  each_logged-verdicts debug n properties (rule ∷ rules) =
      let rest = each_logged-verdicts debug n properties rules in
      elim (Bool-cases (rule_logged composite type_text debug attrs properties rule).0) [
        | inl yes_ ↦ rw yes_ (said debug _ rest)
        | inr no_ ↦ rw no_ (said_only debug)
      ]
    where
      line : Bool → LogLine
      line b = (rule_logged composite type_text b attrs properties rule).1

      said :
          (b : Bool) (lines : List LogLine)
          → verdicts lines ≡ []
          → verdicts (logged composite type_text b attrs (line b) ++ lines) ≡ []
      said true lines e = rule_line true properties rule lines ∙ e
      said false lines e = e

      said_only : (b : Bool) → verdicts (logged composite type_text b attrs (line b)) ≡ []
      said_only true = rule_line true properties rule []
      said_only false = refl

  all_logged-verdicts :
      (debug : Bool) (rules : List RoutingRule) (properties : Fields)
      → verdicts (all_logged composite type_text debug attrs rules properties).1 ≡ []
  unfolding all_logged
  all_logged-verdicts debug [] properties = refl
  all_logged-verdicts debug (rule ∷ rules) properties =
      each_logged-verdicts debug (length (rule ∷ rules)) properties (rule ∷ rules)

  exporters_logged-verdicts :
      (rules : List RoutingRule) (id : Text) (res : List RoutedExporter)
      → verdicts (exporters_logged composite type_text true attrs rules id res).1
        ≡ decisions_of rules id res
  unfolding exporters_logged
  exporters_logged-verdicts rules id [] = refl
  exporters_logged-verdicts rules id (re ∷ res) =
      let (matches, lines) = all_logged composite type_text true attrs rules re.properties in
      let line =
        verdict matches id (attrs_to_map attrs []) (resource_attribute_props re.properties) in
      let more = (exporters_logged composite type_text true attrs rules id res).1 in
      verdicts-append lines (line ∷ more)
      ∙ ap (λ t. t ++ verdicts (line ∷ more)) (all_logged-verdicts true rules re.properties)
      ∙ ap (λ b. (id, b) ∷ verdicts more)
          (all_logged-same composite type_text attrs true rules re.properties)
      ∙ ap
          (λ (t : List (Text × Bool)).
            (
              id,
              matches_all_rules composite (attribute composite type_text attrs) rules re.properties,
            )
            ∷ t)
          (exporters_logged-verdicts rules id res)

  endpoints_logged-verdicts :
      (rules : List RoutingRule) (m : GoMap Text (List RoutedExporter))
      → verdicts (endpoints_logged composite type_text true attrs rules m).1 ≡ decisions rules m
  unfolding endpoints_logged
  endpoints_logged-verdicts rules [] = refl
  endpoints_logged-verdicts rules ((id, exps) ∷ m) =
      verdicts-append (exporters_logged composite type_text true attrs rules id exps).1 _
      ∙ ap (λ t. t ++ verdicts (endpoints_logged composite type_text true attrs rules m).1)
          (exporters_logged-verdicts rules id exps)
      ∙ ap (λ t. decisions_of rules id exps ++ t) (endpoints_logged-verdicts rules m)

  -- the lines that close the log have no verdict
  property_lines_of-verdicts :
      (id : Text) (res : List RoutedExporter) → verdicts (property_lines_of id res) ≡ []
  unfolding property_lines_of line_unless_empty
  property_lines_of-verdicts id [] = refl
  property_lines_of-verdicts id (re ∷ res) =
      unless_empty
        (with_labels (find labels_key re.properties) (resource_attribute_props re.properties))
        (property_lines_of id res) (property_lines_of-verdicts id res)
    where
      unless_empty :
          (fs : Fields) (lines : List LogLine)
          → verdicts lines ≡ []
          → verdicts (line_unless_empty id fs ++ lines) ≡ []
      unless_empty end lines e = e
      unless_empty (field k w fs) lines e = e

  property_lines-verdicts :
      (m : GoMap Text (List RoutedExporter)) → verdicts (property_lines m) ≡ []
  unfolding property_lines
  property_lines-verdicts [] = refl
  property_lines-verdicts ((id, exps) ∷ m) =
      verdicts-append (property_lines_of id exps) (property_lines m)
      ∙ ap (λ t. t ++ verdicts (property_lines m)) (property_lines_of-verdicts id exps)
      ∙ property_lines-verdicts m

  rule_lines-verdicts : (i : ℕ) (rules : List RoutingRule) → verdicts (rule_lines i rules) ≡ []
  unfolding rule_lines
  rule_lines-verdicts i [] = refl
  rule_lines-verdicts i (rule ∷ rules) = rule_lines-verdicts (suc i) rules

  closing_lines-verdicts :
      (r : TelemetryRouter) (matched : List ℕ)
      → verdicts (closing_lines composite type_text true attrs r matched) ≡ []
  unfolding closing_lines
  closing_lines-verdicts r matched = both (length matched =? 0) _
    where
      tail_ : List LogLine
      tail_ = property_lines r.exporters ++ rule_lines 0 r.rules

      tail_-verdicts : verdicts tail_ ≡ []
      tail_-verdicts =
          verdicts-append (property_lines r.exporters) (rule_lines 0 r.rules)
          ∙ ap (λ t. t ++ verdicts (rule_lines 0 r.rules)) (property_lines-verdicts r.exporters)
          ∙ rule_lines-verdicts 0 r.rules

      last : Bool → List LogLine
      last b = if b then all_exporters_matched (length matched) (length r.rules) ∷ [] else []

      last-verdicts : (b : Bool) → verdicts (last b) ≡ []
      last-verdicts true = refl
      last-verdicts false = refl

      both :
          (a b : Bool)
          → verdicts (
              (if a
                then none_matched (attrs_to_map attrs []) r.count (length r.rules) ∷ tail_
                else [])
              ++ last b)
            ≡ []
      both true b =
          verdicts-append tail_ (last b)
          ∙ ap (λ t. t ++ verdicts (last b)) tail_-verdicts
          ∙ last-verdicts b
      both false b = last-verdicts b

  -- Whether debug level is on makes no difference to what Route returns. Without it nothing is
  -- logged; with it, if there are rules and exporters, the log has one verdict for each exporter, in
  -- the order of the range, that says whether all the rules match its properties.
  pub route_logged_lem :
      (debug : Bool) (r : TelemetryRouter)
      → ((route_logged composite type_text debug attrs r).0
          ≡ route composite (attribute composite type_text attrs) r)
        × ((route_logged composite type_text false attrs r).1 ≡ [])
        × ((length r.rules =? 0) ≡ false
            → (r.count =? 0) ≡ false
            → verdicts (route_logged composite type_text true attrs r).1
              ≡ decisions r.rules r.exporters)
  unfolding route_logged
  route_logged_lem debug r = (
    route_logged-same composite type_text attrs debug r,
    silent_route composite type_text attrs r,
    λ some_rules some_exporters.
        let (matched, lines) =
          endpoints_logged composite type_text true attrs r.rules r.exporters in
        rw (some_rules, some_exporters)
          (verdicts-append lines (closing_lines composite type_text true attrs r matched)
            ∙ ap (λ t. t ++ verdicts (closing_lines composite type_text true attrs r matched))
                (endpoints_logged-verdicts r.rules r.exporters)
            ∙ ap (λ t. decisions r.rules r.exporters ++ t) (closing_lines-verdicts r matched)
            ∙ append-nil _),
  )
