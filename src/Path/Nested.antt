-- ===== src/Path/Nested.antt =====
-- `getNestedProperty` against a relation that says where a value stands.
use exportercreator.Prelude.{
  ◌≡◌, ◌≢◌, ◌↔◌, refl, ◌∙◌, sym, List, [], ◌∷◌, Option, none, some, Text, text_Eq,
}
use mathlib.Core.Path.{subst}
use exportercreator.Prelude.Outcome.{Outcome, ok, err}
use exportercreator.Prelude.GoMap.{lookup}
use exportercreator.Value.{Value, Fields, nil, text, object, text_map, env, at_key}
use exportercreator.Path.{
  parse_property_path, get_nested_property, walk, descend, unless_nil, lookup_text, PathError,
}

-- `v` holds `w` under key `k`, in any of the three kinds of map that the program looks into.
pub data Holds : Value → Text → Value → Type 0 where
  in_object : (fs : Fields) (k : Text) (w : Value) → at_key k fs ≡ w → Holds (object fs) k w
  in_env : (fs : Fields) (k : Text) (w : Value) → at_key k fs ≡ w → Holds (env fs) k w
  in_text_map :
      (m : List (Text × Text)) (k s : Text) (w : Value)
      → lookup k m ≡ some s
      → w ≡ text s
      → Holds (text_map m) k w

-- `w` stands at the end of the keys, and nothing on the way is nil.
pub data StandsAt : Value → List Text → Value → Type 0 where
  here : {v : Value} → StandsAt v [] v
  below :
      {v u w : Value} {k : Text} {ks : List Text}
      → Holds v k u
      → u ≢ nil
      → StandsAt u ks w
      → StandsAt v (k ∷ ks) w

text_entry :
    (o : Option Text) (u : Value)
    → lookup_text o ≡ u
    → u ≢ nil
    → (s : Text) × (o ≡ some s) × (u ≡ text s)
unfolding lookup_text
text_entry none u e h = absurd (h (sym e))
text_entry (some s) u e h = (s, refl, sym e)

descend_sound : (v u : Value) (k : Text) → descend v k ≡ u → u ≢ nil → Holds v k u
unfolding descend
descend_sound (object fs) u k e h = in_object fs k u e
descend_sound (env fs) u k e h = in_env fs k u e
descend_sound (text_map m) u k e h =
    let (s, found, same) = text_entry (lookup k m) u e h in in_text_map m k s u found same
descend_sound nil u k e h = absurd (h (sym e))
descend_sound _ u k e h = absurd (h (sym e))

descend_complete : {v u : Value} {k : Text} → Holds v k u → descend v k ≡ u
unfolding descend lookup_text
descend_complete (in_object fs k w e) = e
descend_complete (in_env fs k w e) = e
descend_complete (in_text_map m k s w found same) = rw found (sym same)

unless_nil_facts : (u r w : Value) → unless_nil u r ≡ w → w ≢ nil → (u ≢ nil) × (unless_nil u r ≡ r)
unfolding unless_nil
unless_nil_facts nil r w e h = absurd (h (sym e))
unless_nil_facts (text s) r w e h = (cc, refl)
unless_nil_facts _ r w e h = (cc, refl)

unless_nil-eq : (u r : Value) → u ≢ nil → unless_nil u r ≡ r
unfolding unless_nil
unless_nil-eq nil r h = absurd (h refl)
unless_nil-eq (text s) r h = refl
unless_nil-eq _ r h = refl

walk_sound : (ks : List Text) (v w : Value) → walk v ks ≡ w → w ≢ nil → StandsAt v ks w
unfolding walk
walk_sound [] v w e h = subst (StandsAt v []) e here
walk_sound (k ∷ ks) v w e h =
    let u = descend v k in
    let (filled, goes_on) = unless_nil_facts u (walk u ks) w e h in
    below (descend_sound v u k refl filled) filled (walk_sound ks u w (sym goes_on ∙ e) h)

walk_complete : {v w : Value} {ks : List Text} → StandsAt v ks w → walk v ks ≡ w
unfolding walk
walk_complete here = refl
walk_complete (below {u = u} {ks = ks} holds filled rest) =
    rw (descend_complete holds) (unless_nil-eq u (walk u ks) filled ∙ walk_complete rest)

get-walk :
    (properties : Fields) (path : Text) (ks : List Text)
    → parse_property_path path ≡ ok ks
    → get_nested_property properties path ≡ walk (object properties) ks
unfolding get_nested_property
get-walk properties path ks e = rw (e, get_nested_property)

-- A path that does not parse reads as nil.
get-nil :
    (properties : Fields) (path : Text) (x : PathError)
    → parse_property_path path ≡ err x
    → get_nested_property properties path ≡ nil
unfolding get_nested_property
get-nil properties path x e = rw (e, get_nested_property)

-- For a value `w` that is not nil: `getNestedProperty` returns `w` exactly when the path parses and
-- `w` stands at the end of its keys, where each key is looked up in a map[string]any, a
-- map[string]string or an EndpointEnv, and no value on the way is nil.
pub get_nested_property-StandsAt :
    (properties : Fields) (path : Text) (w : Value)
    → w ≢ nil
    → (get_nested_property properties path ≡ w)
      ↔ ((ks : List Text) × (parse_property_path path ≡ ok ks) × StandsAt (object properties) ks w)
get_nested_property-StandsAt properties path w h = nested (parse_property_path path) refl
  where
    nested :
        (r : Outcome PathError (List Text))
        → parse_property_path path ≡ r
        → (get_nested_property properties path ≡ w) ↔ (
            (ks : List Text) × (parse_property_path path ≡ ok ks)
            × StandsAt (object properties) ks w)
    nested (ok ks) e = (
      λ g. (ks, e, walk_sound ks (object properties) w (sym (get-walk properties path ks e) ∙ g) h),
      λ (js, parsed, stands). get-walk properties path js parsed ∙ walk_complete stands,
    )
    nested (err x) e =
        (λ g. absurd (h (sym g ∙ get-nil properties path x e)), λ (js, parsed, stands). absurd cc)
