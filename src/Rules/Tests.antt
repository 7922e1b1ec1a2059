-- ===== src/Rules/Tests.antt =====
-- Rules that `newRule` accepts and rejects.
use exportercreator.Prelude.{◌≡◌, ◌↔◌, refl, true, false, List, [], ◌∷◌, some, Text}
use exportercreator.Prelude.Outcome.{Outcome, ok, err}
use exportercreator.Value.{Fields, bool}
use exportercreator.Value.Tests.{bytes}
use exportercreator.Expansion.{Evaluated, value}
use exportercreator.Rules.{Rule}
use exportercreator.Rules.Pattern.{
  type_names, new_rule, match_rule_re, any_rune, empty_rule, no_type,
}
use exportercreator.Rules.Starts.{StartsWithType, new_rule_iff}

abbrev some_types : List Text
some_types = bytes "pod" ∷ bytes "k8s.service" ∷ []

abbrev always : Fields → Evaluated
always env = value (bool true)

abbrev compiles : Text → Outcome Text (Fields → Evaluated)
compiles s = ok always

abbrev pod_rule : Text
pod_rule = bytes "type  == \"pod\" && labels.app == \"x\""

abbrev made : Rule
made = record { program = always }

accepts_pod : new_rule some_types compiles pod_rule ≡ ok made
unfolding new_rule
accepts_pod = refl

rejects_rules :
    (new_rule some_types compiles [] ≡ err empty_rule)
    × (new_rule some_types compiles (bytes "name == \"pod\"") ≡ err no_type)
    × (new_rule some_types compiles (bytes "type == \"pods\"") ≡ err no_type)
unfolding new_rule
rejects_rules = (refl, refl, refl)

-- A dot of a name stands for any rune, one of two bytes among them.
dot_is_wildcard :
    (match_rule_re (type_names []) (bytes "type == \"k8sxcrd\"") ≡ true)
    × (match_rule_re (type_names []) (bytes "type == \"k8s\n") ≡ false)
    × (any_rune (0xC3 ∷ 0xA9 ∷ b'c' ∷ []) ≡ some (b'c' ∷ []))
unfolding match_rule_re any_rune
dot_is_wildcard = (refl, refl, refl)

new_rule_iff_example :
    (new_rule some_types compiles pod_rule ≡ ok made)
    ↔ StartsWithType (type_names some_types) pod_rule × (compiles pod_rule ≡ ok made.program)
new_rule_iff_example = new_rule_iff some_types compiles pod_rule made
