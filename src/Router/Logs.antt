-- ===== src/Router/Logs.antt =====
-- `Route` and `matchesAllRules` of router.go with what they log at debug level. A resource's
-- attributes are the list of their keys with AsString of their values; `type_text` stands for the
-- `%T` rendering.
use exportercreator.Prelude.{
  ℕ, suc, ◌^◌, Bool, true, false, ◌&&◌, List, [], ◌∷◌, ◌++◌, Option, none, some, if◌then◌else◌, ltb,
  length, ◌=?◌, Text, text_Eq, ◌==◌,
}
use exportercreator.Prelude.GoMap.{GoMap, lookup, insert}
use exportercreator.Value.{Value, Fields, nil, object, text_map, end, field, find, put, to_string}
use exportercreator.Path.{get_nested_property}
use exportercreator.Router.{RoutingRule, RoutedExporter, TelemetryRouter}

-- A line at debug level, with its fields.
pub data LogLine : Type 0 where
  routing : GoMap Text Text → ℕ → ℕ → LogLine
  no_rules no_exporters : GoMap Text Text → ℕ → LogLine
  attribute_missing : RoutingRule → List Text → LogLine
  property_missing : RoutingRule → Text → List Text → LogLine
  values_differ : RoutingRule → Text → Text → Text → LogLine
  rule_matched : RoutingRule → Text → Text → LogLine
  all_rules_matched : ℕ → LogLine
  verdict : Bool → Text → GoMap Text Text → Fields → LogLine
  none_matched : GoMap Text Text → ℕ → ℕ → LogLine
  endpoint_properties : Text → Fields → LogLine
  routing_rule : ℕ → Text → Text → LogLine
  all_exporters_matched : ℕ → ℕ → LogLine

-- `attrsToMap`
unfoldable pub attrs_to_map : List (Text × Text) → GoMap Text Text → GoMap Text Text
unfolding insert
attrs_to_map [] m = m
attrs_to_map ((k, v) ∷ attrs) m = attrs_to_map attrs (insert k v m)

-- `getResourceAttributeKeys`
unfoldable pub get_resource_attribute_keys : List (Text × Text) → List Text
get_resource_attribute_keys [] = []
get_resource_attribute_keys ((k, v) ∷ attrs) = k ∷ get_resource_attribute_keys attrs

-- `getTopLevelKeys`
unfoldable pub get_top_level_keys : Fields → List Text
get_top_level_keys end = []
get_top_level_keys (field k v fs) = k ∷ get_top_level_keys fs

abbrev pub spec_key : Text
spec_key = b's' ∷ b'p' ∷ b'e' ∷ b'c' ∷ []

-- "resourceAttributes"
abbrev pub resource_attributes_key : Text
resource_attributes_key =
    b'r' ∷ b'e' ∷ b's' ∷ b'o' ∷ b'u' ∷ b'r' ∷ b'c' ∷ b'e' ∷ b'A' ∷ b't' ∷ b't' ∷ b'r' ∷ b'i' ∷ b'b'
    ∷ b'u' ∷ b't' ∷ b'e' ∷ b's' ∷ []

abbrev pub labels_key : Text
labels_key = b'l' ∷ b'a' ∷ b'b' ∷ b'e' ∷ b'l' ∷ b's' ∷ []

unfoldable pub attributes_of_spec : Option Value → Fields
attributes_of_spec (some (object attributes)) =
    field (spec_key ++ b'.' ∷ resource_attributes_key) (object attributes) end
attributes_of_spec o = end

unfoldable pub attributes_in : Option Value → Fields
unfolding attributes_of_spec find
attributes_in (some (object spec)) = attributes_of_spec (find resource_attributes_key spec)
attributes_in o = end

-- `resourceAttributeProps`
unfoldable pub resource_attribute_props : Fields → Fields
unfolding attributes_in find
resource_attribute_props properties = attributes_in (find spec_key properties)

-- the labels of an exporter among what is logged of it
unfoldable pub with_labels : Option Value → Fields → Fields
unfolding put
with_labels (some (text_map labels)) props = put labels_key (text_map labels) props
with_labels o props = props

unfoldable pub line_unless_empty : Text → Fields → List LogLine
line_unless_empty id end = []
line_unless_empty id props = endpoint_properties id props ∷ []

-- the loops that log each exporter's properties
unfoldable pub property_lines_of : Text → List RoutedExporter → List LogLine
unfolding with_labels resource_attribute_props line_unless_empty
property_lines_of id [] = []
property_lines_of id (re ∷ res) =
    line_unless_empty id
      (with_labels (find labels_key re.properties) (resource_attribute_props re.properties))
    ++ property_lines_of id res

unfoldable pub property_lines : GoMap Text (List RoutedExporter) → List LogLine
unfolding property_lines_of
property_lines [] = []
property_lines ((id, exps) ∷ m) = property_lines_of id exps ++ property_lines m

unfoldable pub rule_lines : ℕ → List RoutingRule → List LogLine
rule_lines i [] = []
rule_lines i (rule ∷ rules) =
    routing_rule i rule.resource_attribute rule.endpoint_property ∷ rule_lines (suc i) rules

module _ (composite type_text : Value → Text) (debug : Bool) (attrs : List (Text × Text)) where
  abbrev pub logged : LogLine → List LogLine
  logged line = if debug then line ∷ [] else []

  -- the part of the loop body behind the attribute, with the line that it ends in
  unfoldable pub compare_logged : RoutingRule → Text → Fields → Value → Bool × LogLine
  compare_logged rule s properties nil =
      (false, property_missing rule s (get_top_level_keys properties))
  compare_logged rule s properties v =
      let shown = to_string composite v in
      if s == shown
      then (true, rule_matched rule s shown)
      else (false, values_differ rule s shown (type_text v))

  unfoldable pub rule_logged : Fields → RoutingRule → Bool × LogLine
  unfolding compare_logged lookup
  rule_logged properties rule = elim (lookup rule.attribute_name attrs) [
    | none ↦ (false, attribute_missing rule (get_resource_attribute_keys attrs))
    | some s ↦
        compare_logged rule s properties (get_nested_property properties rule.endpoint_property)
  ]

  -- The loop of `matchesAllRules`; the number is that of all the rules.
  unfoldable pub each_logged : ℕ → Fields → List RoutingRule → Bool × List LogLine
  unfolding rule_logged
  each_logged n properties [] = (true, logged (all_rules_matched n))
  each_logged n properties (rule ∷ rules) =
      let (rest, lines) = each_logged n properties rules in
      let (matches, line) = rule_logged properties rule in
      if matches then (rest, logged line ++ lines) else (false, logged line)

  unfoldable pub all_logged : List RoutingRule → Fields → Bool × List LogLine
  unfolding each_logged
  all_logged [] properties = (false, [])
  all_logged (rule ∷ rules) properties =
      each_logged (length (rule ∷ rules)) properties (rule ∷ rules)

  -- the loops of `Route` over the exporters
  unfoldable pub exporters_logged :
      List RoutingRule → Text → List RoutedExporter → List ℕ × List LogLine
  unfolding all_logged
  exporters_logged rules id [] = ([], [])
  exporters_logged rules id (re ∷ res) =
      let (rest, more) = exporters_logged rules id res in
      let (matches, lines) = all_logged rules re.properties in
      let line =
        verdict matches id (attrs_to_map attrs []) (resource_attribute_props re.properties) in
      (if matches then re.exporter ∷ rest else rest, lines ++ (logged line ++ more))

  unfoldable pub endpoints_logged :
      List RoutingRule → GoMap Text (List RoutedExporter) → List ℕ × List LogLine
  unfolding exporters_logged
  endpoints_logged rules [] = ([], [])
  endpoints_logged rules ((id, exps) ∷ m) =
      let (rest, more) = endpoints_logged rules m in
      let (matched, lines) = exporters_logged rules id exps in (matched ++ rest, lines ++ more)

  -- what `Route` logs at its end
  unfoldable pub closing_lines : TelemetryRouter → List ℕ → List LogLine
  closing_lines r matched =
      (if debug && (length matched =? 0)
        then none_matched (attrs_to_map attrs []) r.count (length r.rules)
            ∷ property_lines r.exporters
          ++ rule_lines 0 r.rules
        else [])
      ++ (if debug && (ltb 1 r.count && ltb r.count (2 ^ 63)) && (length matched =? r.count)
          then all_exporters_matched (length matched) (length r.rules) ∷ []
          else [])

  unfoldable pub route_logged : TelemetryRouter → List ℕ × List LogLine
  unfolding endpoints_logged closing_lines
  route_logged r =
      let shown = attrs_to_map attrs [] in
      let opening = logged (routing shown (length r.rules) r.count) in
      let (matched, lines) = endpoints_logged r.rules r.exporters in
      if length r.rules =? 0
      then ([], opening ++ logged (no_rules shown r.count))
      else if r.count =? 0
      then ([], opening ++ logged (no_exporters shown (length r.rules)))
      else (matched, opening ++ (lines ++ closing_lines r matched))
