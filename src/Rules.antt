-- ===== src/Rules.antt =====
-- The discovery rules of rules.go. The compiled program of the expression library is what
-- `expr.Run` does with an environment.
pub mod Pattern
pub mod Takes
pub mod Starts
pub mod Tests
use exportercreator.Prelude.{Bool, Text}
use exportercreator.Prelude.Outcome.{Outcome, ok, err}
use exportercreator.Value.{Fields, bool}
use exportercreator.Expansion.{Evaluated, value, failure}

pub record Rule : Type 0 where
  pub program : Fields → Evaluated

pub data RuleError : Type 0 where
  run_failed : Text → RuleError
  not_boolean : RuleError

unfoldable pub boolean_result : Evaluated → Outcome RuleError Bool
boolean_result (failure message) = err (run_failed message)
boolean_result (value (bool ret)) = ok ret
boolean_result (value v) = err not_boolean

-- `rule.eval`
unfoldable pub eval_rule : Rule → Fields → Outcome RuleError Bool
unfolding boolean_result
eval_rule r env = boolean_result (r.program env)
