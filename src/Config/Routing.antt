-- ===== src/Config/Routing.antt =====
-- The check of the routing rules in `Config.Unmarshal` of config.go.
use exportercreator.Prelude.{
  ℕ, suc, ◌≡◌, ◌≢◌, ◌↔◌, refl, List, [], ◌∷◌, Option, none, some, All, Text,
}
use exportercreator.Prelude.Outcome.{Outcome, ok, err}
use exportercreator.Path.{PathError, parse_property_path, resolve_attribute_name}
use exportercreator.Router.{RoutingRule, resolve_rule, resolve_rules}

pub data RoutingError : Type 0 where
  no_attribute no_property : ℕ → RoutingError
  bad_attribute bad_property : ℕ → PathError → RoutingError

unfoldable pub failure_of :
    {A : Type 0}
    → (PathError → RoutingError)
    → Outcome PathError A
    → Option RoutingError
    → Option RoutingError
failure_of f (ok a) rest = rest
failure_of f (err e) rest = some (f e)

unfoldable pub is_missing : Text → RoutingError → Option RoutingError → Option RoutingError
is_missing [] e rest = some e
is_missing (c ∷ s) e rest = rest

-- the body of the loop, for the rule at an index
unfoldable pub check_rule : ℕ → RoutingRule → Option RoutingError
unfolding failure_of is_missing
check_rule i rule = is_missing rule.resource_attribute (no_attribute i) (
    is_missing rule.endpoint_property (no_property i) (
      failure_of (bad_attribute i) (resolve_attribute_name rule.resource_attribute)
        (failure_of (bad_property i) (parse_property_path rule.endpoint_property) none)))

unfoldable pub check_rest : Option RoutingError → Option RoutingError → Option RoutingError
check_rest none rest = rest
check_rest (some e) rest = some e

unfoldable pub check_rules : ℕ → List RoutingRule → Option RoutingError
unfolding check_rule check_rest
check_rules i [] = none
check_rules i (rule ∷ rules) = check_rest (check_rule i rule) (check_rules (suc i) rules)

-- A rule that can match: it names an attribute and the path of a property.
abbrev pub IsUsable : RoutingRule → Type 0
IsUsable rule =
    (rule.resource_attribute ≢ [])
    × ((name : Text) × (resolve_attribute_name rule.resource_attribute ≡ ok name))
    × ((keys : List Text) × (parse_property_path rule.endpoint_property ≡ ok keys))

-- A rule of the router: what is looked up is what the configured spelling resolves to.
abbrev pub IsResolvedRule : RoutingRule → Type 0
IsResolvedRule rule =
    (resolve_attribute_name rule.resource_attribute ≡ ok rule.attribute_name)
    × ((keys : List Text) × (parse_property_path rule.endpoint_property ≡ ok keys))

checked_paths :
    {A B : Type 0} (f g : PathError → RoutingError) (p : Outcome PathError A)
    (q : Outcome PathError B)
    → (failure_of f p (failure_of g q none) ≡ none)
      ↔ ((a : A) × (p ≡ ok a)) × ((b : B) × (q ≡ ok b))
unfolding failure_of
checked_paths f g (ok a) (ok b) = (λ h. ((a, refl), (b, refl)), λ h. refl)
checked_paths f g (ok a) (err e) = (λ h. absurd cc, λ h. let r = h.1.1 in absurd (cc r))
checked_paths f g (err e) q = (λ h. absurd cc, λ h. let r = h.0.1 in absurd (cc r))

not_missing :
    (s : Text) (e : RoutingError) (rest : Option RoutingError)
    → (is_missing s e rest ≡ none) ↔ (s ≢ []) × (rest ≡ none)
unfolding is_missing
not_missing [] e rest = (λ h. absurd cc, λ h. absurd (h.0 refl))
not_missing (c ∷ s) e rest = (λ h. (λ q. cc q, h), λ h. h.1)

parses-filled : (path : Text) (keys : List Text) → parse_property_path path ≡ ok keys → path ≢ []
unfolding parse_property_path
parses-filled [] keys h = absurd (cc h)
parses-filled (c ∷ path) keys h = λ q. cc q

check_rule_iff : (i : ℕ) (rule : RoutingRule) → (check_rule i rule ≡ none) ↔ IsUsable rule
unfolding check_rule
check_rule_iff i rule =
    let attribute = not_missing rule.resource_attribute (no_attribute i) _ in
    let property = not_missing rule.endpoint_property (no_property i) _ in
    let paths =
      checked_paths (bad_attribute i) (bad_property i)
        (resolve_attribute_name rule.resource_attribute)
        (parse_property_path rule.endpoint_property) in
    (
      λ h.
          let (filled, rest) = attribute.0 h in
          let (resolves, parses) = paths.0 (property.0 rest).1 in (filled, resolves, parses),
      λ (filled, resolves, (keys, e)). attribute.1 (
        filled,
        property.1 (parses-filled rule.endpoint_property keys e, paths.1 (resolves, (keys, e))),
      ),
    )

both_none : (o p : Option RoutingError) → (check_rest o p ≡ none) ↔ (o ≡ none) × (p ≡ none)
unfolding check_rest
both_none none p = (λ h. (refl, h), λ h. h.1)
both_none (some e) p = (λ h. absurd cc, λ h. let r = h.0 in absurd (cc r))

check_rules-none :
    (i : ℕ) (rules : List RoutingRule) → (check_rules i rules ≡ none) ↔ All IsUsable rules
unfolding check_rules
check_rules-none i [] = (λ h. tt, λ h. refl)
check_rules-none i (rule ∷ rules) =
    let both = both_none (check_rule i rule) (check_rules (suc i) rules) in
    let one = check_rule_iff i rule in
    let rest = check_rules-none (suc i) rules in
    (λ h. (one.0 (both.0 h).0, rest.0 (both.0 h).1), λ h. both.1 (one.1 h.0, rest.1 h.1))

resolve_rule-ok :
    (rule : RoutingRule) (name : Text)
    → resolve_attribute_name rule.resource_attribute ≡ ok name
    → resolve_rule rule ≡ record rule { attribute_name = name }
unfolding resolve_rule
resolve_rule-ok rule name e = rw (e, resolve_rule) refl

resolve_rule-IsResolvedRule :
    (rule : RoutingRule) → IsUsable rule → IsResolvedRule (resolve_rule rule)
resolve_rule-IsResolvedRule rule (filled, (name, e), parses) =
    rw (resolve_rule-ok rule name e) (e, parses)

resolve_rules-IsResolvedRule :
    (rules : List RoutingRule) → All IsUsable rules → All IsResolvedRule (resolve_rules rules)
unfolding resolve_rules
resolve_rules-IsResolvedRule [] h = tt
resolve_rules-IsResolvedRule (rule ∷ rules) (h, hs) =
    (resolve_rule-IsResolvedRule rule h, resolve_rules-IsResolvedRule rules hs)

-- The rules of a configuration are accepted just when each names an attribute that resolves and a
-- property whose path parses; and in the router that is made of accepted rules every rule has the
-- name that its spelling resolves to, never the spelling that stands in where resolving fails.
pub check_rules_iff :
    (rules : List RoutingRule)
    → ((check_rules 0 rules ≡ none) ↔ All IsUsable rules)
      × (check_rules 0 rules ≡ none → All IsResolvedRule (resolve_rules rules))
check_rules_iff rules = (
  check_rules-none 0 rules,
  λ h. resolve_rules-IsResolvedRule rules ((check_rules-none 0 rules).0 h),
)
