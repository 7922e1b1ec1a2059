-- ===== src/Handler/Resolve.antt =====
-- What observerhandler.go (`startExporter`) makes of a template before it starts the exporter: the
-- two configurations that go to the runner, and the properties that go to the router.
use exportercreator.Prelude.{
  Bool, true, false, ◌&&◌, not, [], ◌∷◌, Option, none, some, if◌then◌else◌, Text,
}
use exportercreator.Prelude.Outcome.{ok, err}
use exportercreator.Value.{Value, Fields, text, other, end, field, find, put, copy_into, sprint}
use exportercreator.Expansion.{Evaluated, expand_config, eval_backticks, remove_nil_values_from_map}
use exportercreator.Config.{ExporterTemplate}

abbrev pub endpoint_config_key : Text
endpoint_config_key = b'e' ∷ b'n' ∷ b'd' ∷ b'p' ∷ b'o' ∷ b'i' ∷ b'n' ∷ b't' ∷ []

abbrev pub tmp_set_endpoint_config_key : Text
tmp_set_endpoint_config_key =
    b'<' ∷ b't' ∷ b'm' ∷ b'p' ∷ b'.' ∷ b'e' ∷ b'x' ∷ b'p' ∷ b'o' ∷ b'r' ∷ b't' ∷ b'e' ∷ b'r' ∷ b'.'
    ∷ b'c' ∷ b'r' ∷ b'e' ∷ b'a' ∷ b't' ∷ b'o' ∷ b'r' ∷ b'.' ∷ b'a' ∷ b'u' ∷ b't' ∷ b'o' ∷ b'm'
    ∷ b'a' ∷ b't' ∷ b'i' ∷ b'c' ∷ b'a' ∷ b'l' ∷ b'l' ∷ b'y' ∷ b'.' ∷ b's' ∷ b'e' ∷ b't' ∷ b'.'
    ∷ b'e' ∷ b'n' ∷ b'd' ∷ b'p' ∷ b'o' ∷ b'i' ∷ b'n' ∷ b't' ∷ b'.' ∷ b'f' ∷ b'i' ∷ b'e' ∷ b'l'
    ∷ b'd' ∷ b'>' ∷ []

unfoldable pub is_some : Option Value → Bool
is_some none = false
is_some (some v) = true

-- `_, ok := m[k]`
unfoldable pub has_key : Text → Fields → Bool
unfolding is_some
has_key k fs = is_some (find k fs)

-- `map[string]any{}` with the key of the marker set to a `struct{}{}`, and the endpoint
unfoldable pub discovered_cfg : Fields → Text → Fields
unfolding has_key
discovered_cfg resolved target =
    if has_key endpoint_config_key resolved
    then end
    else field endpoint_config_key (text target)
        (field tmp_set_endpoint_config_key (other (b'{' ∷ b'}' ∷ [])) end)

module _ (composite : Value → Text) (eval : Text → Fields → Evaluated) where
  -- an attribute as text, before its expansion
  unfoldable pub attr_value_text : Value → Text
  attr_value_text (text s) = s
  attr_value_text v = sprint composite v

  -- The loop over `template.ResourceAttributes`: what does not expand is left out.
  unfoldable pub add_attributes : Fields → Fields → Fields → Fields
  unfolding attr_value_text
  add_attributes env routing end = routing
  add_attributes env routing (field k v attrs) =
      elim (eval_backticks composite eval (attr_value_text v) env) [
        | ok expanded ↦ add_attributes env (put k expanded routing) attrs
        | err e ↦ add_attributes env routing attrs
      ]

  unfoldable pub routing_env : ExporterTemplate → Fields → Fields
  unfolding add_attributes
  routing_env template env = add_attributes env (copy_into end env) template.resource_attributes

  unfoldable pub discover : Fields → Fields → Text → Option (Fields × Fields)
  unfolding discovered_cfg
  discover resolved env target =
      elim (expand_config composite eval (discovered_cfg resolved target) env) [
        | ok discovered ↦ some (resolved, discovered)
        | err e ↦ none
      ]

  -- The first part of `startExporter`: the template's configuration and the discovered one, unless
  -- it returns before it starts the exporter.
  unfoldable pub resolve_configs : ExporterTemplate → Fields → Text → Option (Fields × Fields)
  unfolding has_key discover
  resolve_configs template env target =
      elim (expand_config composite eval template.exporter_config.config env) [
        | err e ↦ none
        | ok expanded ↦
            let resolved = remove_nil_values_from_map expanded in
            if has_key endpoint_config_key template.exporter_config.config
              && not (has_key endpoint_config_key resolved)
            then none
            else discover resolved env target
      ]
