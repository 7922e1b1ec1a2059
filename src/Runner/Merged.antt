-- ===== src/Runner/Merged.antt =====
-- What is left of the discovered configuration when it is merged.
use exportercreator.Prelude.{
  ◌≡◌, refl, ap, ◌∙◌, Bool, true, false, ◌||◌, ◌&&◌, not, Bool-cases, inl, inr, Option, none,
  if◌then◌else◌, Text, text_Eq, ◌==◌,
}
use exportercreator.Value.{Value, Fields, at_key, find, remove, find-remove}
use exportercreator.Handler.{endpoint_config_key, tmp_set_endpoint_config_key, has_key}
use exportercreator.Runner.{Factory, template_has_endpoint, for_merge}

two_tests :
    (t e : Bool) (o : Option Value)
    → (if e then none else if t then none else o) ≡ (if t || (e && true) then none else o)
two_tests true true o = refl
two_tests true false o = refl
two_tests false true o = refl
two_tests false false o = refl

one_test :
    (t e : Bool) (o : Option Value)
    → (if t then none else o) ≡ (if t || (e && false) then none else o)
one_test true true o = refl
one_test true false o = refl
one_test false true o = refl
one_test false false o = refl

-- the discovered configuration without the mark, with the endpoint and without it
abbrev unmarked : Fields → Fields
unmarked discovered = remove tmp_set_endpoint_config_key discovered

find-unmarked :
    (discovered : Fields) (k : Text)
    → find k (unmarked discovered) ≡ (
        if tmp_set_endpoint_config_key == k || (endpoint_config_key == k && false)
        then none
        else find k discovered)
find-unmarked discovered k =
    find-remove tmp_set_endpoint_config_key k discovered
    ∙ one_test (tmp_set_endpoint_config_key == k) (endpoint_config_key == k) (find k discovered)

find-both_removed :
    (discovered : Fields) (k : Text)
    → find k (remove endpoint_config_key (unmarked discovered)) ≡ (
        if tmp_set_endpoint_config_key == k || (endpoint_config_key == k && true)
        then none
        else find k discovered)
find-both_removed discovered k =
    find-remove endpoint_config_key k (unmarked discovered)
    ∙ ap (λ o. if endpoint_config_key == k then none else o)
        (find-remove tmp_set_endpoint_config_key k discovered)
    ∙ two_tests (tmp_set_endpoint_config_key == k) (endpoint_config_key == k) (find k discovered)

-- Where the handler has marked the endpoint as its own, the mark does not reach the merge, and the
-- endpoint reaches it only if the template has none and the factory's configuration takes it; every
-- other entry is left as it is. Where it has not, nothing changes.
pub for_merge_lem :
    (to_text : Value → Text) (factory : Factory) (templated discovered : Fields) (k : Text)
    → let (target, rest) = for_merge to_text factory templated discovered in
      let inherits =
        not (template_has_endpoint to_text factory templated) && factory.accepts_endpoint target in
      (has_key tmp_set_endpoint_config_key discovered ≡ true
        → find k rest ≡ (
            if tmp_set_endpoint_config_key == k || (endpoint_config_key == k && not inherits)
            then none
            else find k discovered))
      × (has_key tmp_set_endpoint_config_key discovered ≡ false → rest ≡ discovered)
unfolding for_merge
for_merge_lem to_text factory templated discovered k = (
  λ marked. rw marked (elim (Bool-cases (template_has_endpoint to_text factory templated)) [
    | inl has ↦ rw has (find-both_removed discovered k)
    | inr has ↦
        let target = to_text (at_key endpoint_config_key (unmarked discovered)) in
        rw has (elim (Bool-cases (factory.accepts_endpoint target)) [
          | inl takes ↦ rw takes (find-unmarked discovered k)
          | inr takes ↦ rw takes (find-both_removed discovered k)
        ])
  ]),
  λ not_marked. rw not_marked,
)
