-- ===== src/Expansion/Tests.antt =====
-- Runs of the expansion functions, and the theorems about them at concrete values.
use exportercreator.Prelude.{◌≡◌, refl, List, [], ◌∷◌, false, Text, arith, text_eq}
use exportercreator.Prelude.Outcome.{Outcome, ok, err}
use exportercreator.Value.{Value, Fields, nil, text, int, object, end, field, find, sprint, at_key}
use exportercreator.Value.Tests.{bytes}
use exportercreator.Expansion.{
  Evaluated, value, ExpandError, dangling_escape, empty_expression, unbalanced, is_blank,
  eval_backticks, expand_fields, expand_config, remove_nil_values_from_map,
}
use exportercreator.Expansion.Pieces.{Piece, plain, expression, print, render}
use exportercreator.Expansion.Template.{eval_backticks-print}
use exportercreator.Expansion.Tree.{expanded_entry, find-expand_config}
use exportercreator.Expansion.Prune.{AreClean, remove_nil_values_from_map_lem}
use exportercreator.Expansion.Entries.{left_of, find-remove_nil_values_from_map}

abbrev no_composite : Value → Text
no_composite v = []

-- An expression language of variables: an expression is a key of the environment.
abbrev eval_key : Text → Fields → Evaluated
eval_key e env = value (at_key e env)

abbrev port_env : Fields
port_env = field (bytes "port") (int false 4317) end

abbrev port_pieces : List Piece
port_pieces = plain (bytes "h:") ∷ expression (bytes "port") ∷ []

abbrev run : Text → Outcome ExpandError Value
run s = eval_backticks no_composite eval_key s port_env

-- An expression that is the whole value keeps its type.
expands :
    (run (bytes "h:`port`") ≡ ok (text (bytes "h:4317")))
    × (run (bytes "`port`") ≡ ok (int false 4317))
    × (run (bytes "a\\`b") ≡ ok (text (bytes "a`b")))
    × (run (bytes "a\\") ≡ err dangling_escape)
    × (run (bytes "`` ") ≡ err empty_expression)
    × (run (bytes "x`port") ≡ err (unbalanced 2))
unfolding eval_backticks sprint text_eq at_key is_blank
expands = (refl, refl, refl, refl, refl, refl)

-- An escaped backtick inside an expression also stands in the output, so that the value of the
-- expression loses its type.
escape_leaks :
    eval_backticks no_composite (λ e env. value (int false 7)) (bytes "`f(\\`p\\`)`") port_env
    ≡ ok (text (bytes "``7"))
unfolding eval_backticks sprint text_eq is_blank
escape_leaks = refl

eval_backticks-print_example :
    eval_backticks no_composite eval_key (print port_pieces) port_env
    ≡ render no_composite eval_key port_env port_pieces [] []
unfolding is_blank
eval_backticks-print_example =
    eval_backticks-print no_composite eval_key port_env port_pieces (ground arith)

abbrev port_cfg : Fields
port_cfg = field (bytes "tls") nil (field (bytes "port") (text (bytes "`port`")) end)

port_cfg_expands :
    expand_config no_composite eval_key port_cfg port_env
    ≡ ok (field (bytes "port") (int false 4317) end)
unfolding expand_config expand_fields eval_backticks sprint text_eq at_key is_blank
port_cfg_expands = refl

find-expand_config_example :
    expanded_entry no_composite eval_key port_env (find (bytes "port") port_cfg)
    ≡ ok (find (bytes "port") (field (bytes "port") (int false 4317) end))
unfolding find text_eq
find-expand_config_example =
    find-expand_config no_composite eval_key port_env port_cfg
      (field (bytes "port") (int false 4317) end) (bytes "port") (refl, (refl, tt)) port_cfg_expands

abbrev sparse : Fields
sparse =
    field (bytes "tls") (object (field (bytes "ca") nil end))
      (field (bytes "port") (int false 4317) end)

remove_nil_values_from_map_lem_example :
    AreClean (remove_nil_values_from_map sparse)
    × (AreClean sparse → remove_nil_values_from_map sparse ≡ sparse)
    × (remove_nil_values_from_map (remove_nil_values_from_map sparse)
        ≡ remove_nil_values_from_map sparse)
remove_nil_values_from_map_lem_example = remove_nil_values_from_map_lem sparse

find-remove_nil_values_from_map_example :
    find (bytes "tls") (remove_nil_values_from_map sparse) ≡ left_of (find (bytes "tls") sparse)
unfolding find text_eq
find-remove_nil_values_from_map_example =
    find-remove_nil_values_from_map sparse (bytes "tls") (refl, (refl, tt))
