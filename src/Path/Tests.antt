-- ===== src/Path/Tests.antt =====
-- Runs of the path functions, and the theorems about them at concrete paths.
use exportercreator.Prelude.{◌≢◌, ◌≡◌, refl, List, [], ◌∷◌, Text, arith, ◌↔◌, text_eq}
use exportercreator.Prelude.Outcome.{ok, err}
use exportercreator.Value.{nil, Fields, end, field, text, text_map, object}
use exportercreator.Value.Tests.{bytes}
use exportercreator.Path.{
  parse_property_path, resolve_attribute_name, get_nested_property, empty_path, leading_bracket,
  walk, descend, quoted, trailing_dot, empty_name, bracket_after_dot, unterminated_quote,
  unexpected, out_of_fuel,
}
use exportercreator.Path.Fuel.{parse_property_path_terminates}
use exportercreator.Path.Grammar.{Segment, dotted, bracketed, print_path}
use exportercreator.Path.Print.{parse_property_path-print_path}
use exportercreator.Path.Sound.{Parsed, parse_property_path-Parsed}
use exportercreator.Path.Resolve.{resolve_attribute_name-print_path}
use exportercreator.Path.Nested.{StandsAt, get_nested_property-StandsAt}

abbrev label_segments : List Segment
label_segments = dotted (bytes "labels") ∷ bracketed (bytes "a.b\"c") ∷ []

abbrev label_path : Text
label_path = bytes "pod.labels[\"a.b\\\"c\"]"

abbrev label_keys : List Text
label_keys = bytes "pod" ∷ bytes "labels" ∷ bytes "a.b\"c" ∷ []

label_path_parses : parse_property_path label_path ≡ ok label_keys
unfolding parse_property_path quoted
label_path_parses = refl

rejects :
    (parse_property_path [] ≡ err empty_path)
    × (parse_property_path (bytes "[\"a\"]") ≡ err leading_bracket)
    × (parse_property_path (bytes ".app") ≡ err (empty_name 0))
    × (parse_property_path (bytes "labels.") ≡ err trailing_dot)
    × (parse_property_path (bytes "pod..labels") ≡ err (empty_name 4))
    × (parse_property_path (bytes "labels.[\"a\"]") ≡ err (bracket_after_dot 7))
    × (parse_property_path (bytes "l[\"a.b]") ≡ err (unterminated_quote (bytes "[\"a.b]")))
    × (parse_property_path (bytes "l[\"a.b\"]x") ≡ err (unexpected b'x' 8))
unfolding parse_property_path quoted
rejects = (refl, refl, refl, refl, refl, refl, refl, refl)

resolves :
    resolve_attribute_name (bytes "k8s.pod.labels[\"a.b/c\"]") ≡ ok (bytes "k8s.pod.labels.a.b/c")
unfolding resolve_attribute_name parse_property_path quoted
resolves = refl

parse_property_path-print_path_example :
    parse_property_path (print_path (bytes "pod") label_segments) ≡ ok label_keys
parse_property_path-print_path_example =
    parse_property_path-print_path (bytes "pod") label_segments (ground arith) (ground arith)

parse_property_path-Parsed_example : Parsed label_path label_keys
parse_property_path-Parsed_example =
    parse_property_path-Parsed label_path label_keys label_path_parses

resolve_attribute_name-print_path_example :
    resolve_attribute_name label_path ≡ ok (bytes "pod.labels.a.b\"c")
unfolding resolve_attribute_name
resolve_attribute_name-print_path_example =
    resolve_attribute_name-print_path (bytes "pod") label_segments (ground arith) (ground arith)

abbrev pod : Fields
pod = field (bytes "labels") (text_map ((bytes "app", bytes "web") ∷ [])) end

get_nested_property-StandsAt_example :
    (get_nested_property pod (bytes "labels.app") ≡ text (bytes "web")) ↔ (
      (ks : List Text) × (parse_property_path (bytes "labels.app") ≡ ok ks)
      × StandsAt (object pod) ks (text (bytes "web")))
get_nested_property-StandsAt_example =
    get_nested_property-StandsAt pod (bytes "labels.app") (text (bytes "web")) (cc)

-- An absent label reads as nil, where an empty one reads as a text.
absent_label : get_nested_property pod (bytes "labels.tier") ≡ nil
unfolding get_nested_property parse_property_path walk descend text_eq
absent_label = refl

parse_property_path_terminates_example : parse_property_path label_path ≢ err out_of_fuel
parse_property_path_terminates_example = parse_property_path_terminates label_path
