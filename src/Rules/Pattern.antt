-- ===== src/Rules/Pattern.antt =====
-- The pattern of rules.go that the text of a rule has to start with, and `newRule`. The names of the
-- observer package's endpoint types and the compiler of the expression library are parameters; the
-- regular expression is matched as Go's regexp matches it, on bytes that it reads as UTF-8.
use exportercreator.Prelude.{
  ℕ, zero, suc, Bool, false, not, ◌&&◌, ◌||◌, List, [], ◌∷◌, ◌++◌, Option, none, some,
  if◌then◌else◌, ◌=?◌, leb, length, Text,
}
use exportercreator.Prelude.Outcome.{Outcome, ok, err}
use exportercreator.Value.{Fields}
use exportercreator.Expansion.{Evaluated}
use exportercreator.Rules.{Rule}

abbrev pub between : ℕ → ℕ → ℕ → Bool
between lo hi b = leb lo b && leb b hi

-- a byte of a UTF-8 sequence behind its first
abbrev pub continues : ℕ → Bool
continues = between 0x80 0xBF

abbrev pub second_of_two : ℕ → Text → Bool
second_of_two b (b1 ∷ s) = between 0xC2 0xDF b && continues b1
second_of_two b s = false

abbrev pub rest_of_three : ℕ → Text → Bool
rest_of_three b (b1 ∷ b2 ∷ s) =
    between 0xE0 0xEF b
    && between (if b =? 0xE0 then 0xA0 else 0x80) (if b =? 0xED then 0x9F else 0xBF) b1
    && continues b2
rest_of_three b s = false

abbrev pub rest_of_four : ℕ → Text → Bool
rest_of_four b (b1 ∷ b2 ∷ b3 ∷ s) =
    between 0xF0 0xF4 b
    && between (if b =? 0xF0 then 0x90 else 0x80) (if b =? 0xF4 then 0x8F else 0xBF) b1
    && continues b2
    && continues b3
rest_of_four b s = false

abbrev pub advance : ℕ → Text → Text
advance zero s = s
advance (suc n) [] = []
advance (suc n) (c ∷ s) = advance n s

-- How many bytes a rune takes behind its first; a byte that starts no valid sequence is a rune.
unfoldable pub rune_tail : ℕ → Text → ℕ
rune_tail b s =
    if second_of_two b s
    then 1
    else if rest_of_three b s
    then 2
    else if rest_of_four b s
    then 3
    else 0

-- what `.` takes: any rune but the end of a line
unfoldable pub any_rune : Text → Option Text
unfolding rune_tail
any_rune [] = none
any_rune (c ∷ s) = if c =? b'\n' then none else some (advance (rune_tail c s) s)

abbrev pub and_then : Option Text → (Text → Option Text) → Option Text
and_then none f = none
and_then (some r) f = f r

abbrev pub holds_for : Option Text → (Text → Bool) → Bool
holds_for none f = false
holds_for (some r) f = f r

unfoldable pub literal : ℕ → Text → Option Text
literal p [] = none
literal p (c ∷ s) = if c =? p then some s else none

-- A name in the pattern. `%q` does not escape its dots for the regular expression.
unfoldable pub match_name : Text → Text → Option Text
unfolding any_rune literal
match_name [] s = some s
match_name (p ∷ ps) s = and_then (if p =? b'.' then any_rune s else literal p s) (match_name ps)

unfoldable pub match_literals : Text → Text → Option Text
unfolding literal
match_literals [] s = some s
match_literals (p ∷ ps) s = and_then (literal p s) (match_literals ps)

-- `\s`
abbrev pub is_space : ℕ → Bool
is_space c = c =? b' ' || c =? b'\t' || c =? b'\n' || c =? 0x0C || c =? b'\r'

-- `\s*`
unfoldable pub skip_spaces : Text → Text
skip_spaces [] = []
skip_spaces (c ∷ s) = if is_space c then skip_spaces s else c ∷ s

abbrev pub is_closed : Text → Bool
is_closed [] = false
is_closed (c ∷ s) = c =? b'"'

-- the alternatives, behind the opening quote
unfoldable pub match_names : List Text → Text → Bool
unfolding match_name
match_names [] s = false
match_names (name ∷ names) s = holds_for (match_name name s) is_closed || match_names names s

abbrev pub type_word : Text
type_word = b't' ∷ b'y' ∷ b'p' ∷ b'e' ∷ []

abbrev pub equals_word : Text
equals_word = b'=' ∷ b'=' ∷ []

-- `ruleRe.MatchString`
unfoldable pub match_rule_re : List Text → Text → Bool
unfolding match_literals skip_spaces match_names
match_rule_re names s = holds_for (match_literals type_word s) (λ r.
    holds_for (match_literals equals_word (skip_spaces r))
      (λ r'. holds_for (literal b'"' (skip_spaces r')) (match_names names)))

-- the names of the endpoint types that the program adds (observer_endpoint_types.go)
abbrev pub k8s_crd_type : Text
k8s_crd_type = b'k' ∷ b'8' ∷ b's' ∷ b'.' ∷ b'c' ∷ b'r' ∷ b'd' ∷ []

abbrev pub json_file_type : Text
json_file_type = b'j' ∷ b's' ∷ b'o' ∷ b'n' ∷ b'f' ∷ b'i' ∷ b'l' ∷ b'e' ∷ []

abbrev pub type_names : List Text → List Text
type_names observed = observed ++ k8s_crd_type ∷ json_file_type ∷ []

pub data NewRuleError : Type 0 where
  empty_rule no_type : NewRuleError
  not_compiled : Text → NewRuleError

unfoldable pub compiled : Outcome Text (Fields → Evaluated) → Outcome NewRuleError Rule
compiled (ok program) = ok (record { program = program })
compiled (err message) = err (not_compiled message)

-- `newRule`, for the names that the pattern has besides the program's own
unfoldable pub new_rule :
    List Text → (Text → Outcome Text (Fields → Evaluated)) → Text → Outcome NewRuleError Rule
unfolding match_rule_re compiled
new_rule observed compile rule_str =
    if length rule_str =? 0
    then err empty_rule
    else if not (match_rule_re (type_names observed) rule_str)
    then err no_type
    else compiled (compile rule_str)
