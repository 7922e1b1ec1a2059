-- ===== src/Expansion/Pieces.antt =====
-- Templates: pieces that are printed into a configuration value, and what each piece contributes
-- to the result.
use exportercreator.Prelude.{ℕ, ◌≡◌, false, List, [], ◌∷◌, ◌++◌, All, ◌=?◌, if◌then◌else◌, Text}
use exportercreator.Prelude.Outcome.{Outcome, ok, err}
use exportercreator.Value.{Value, Fields, nil, sprint}
use exportercreator.Expansion.{
  Evaluated, value, failure, ExpandError, eval_failed, is_blank, is_missing_field, typed_result,
}

-- Text with no backslash or backtick, an escaped backtick, a backslash in front of another byte, or
-- an expression between backticks.
pub data Piece : Type 0 where
  plain : Text → Piece
  tick : Piece
  slash : ℕ → Piece
  expression : Text → Piece

abbrev pub IsPlainByte : ℕ → Type 0
IsPlainByte c = ((c =? b'\\') ≡ false) × ((c =? b'`') ≡ false)

abbrev pub IsPiece : Piece → Type 0
IsPiece (plain s) = All IsPlainByte s
IsPiece tick = Unit
IsPiece (slash c) = IsPlainByte c
IsPiece (expression e) = All IsPlainByte e × (is_blank e ≡ false)

abbrev pub print_piece : Piece → Text → Text
print_piece (plain s) rest = s ++ rest
print_piece tick rest = b'\\' ∷ b'`' ∷ rest
print_piece (slash c) rest = b'\\' ∷ c ∷ rest
print_piece (expression e) rest = b'`' ∷ e ++ b'`' ∷ rest

abbrev pub print : List Piece → Text
print [] = []
print (p ∷ ps) = print_piece p (print ps)

module _ (composite : Value → Text) (eval : Text → Fields → Evaluated) (env : Fields) where
  -- The first expression that fails ends a template: with nil where it is an optional field that is
  -- missing, and with its error otherwise.
  abbrev pub after_eval :
      Evaluated
      → Text
      → List Value
      → (Text → List Value → Outcome ExpandError Value)
      → Outcome ExpandError Value
  after_eval (value v) output values next = next (output ++ sprint composite v) (values ++ v ∷ [])
  after_eval (failure message) output values next =
      if is_missing_field message then ok nil else err (eval_failed message)

  -- The result of a template, from the output and the values of expressions so far.
  abbrev pub render : List Piece → Text → List Value → Outcome ExpandError Value
  render [] output values = ok (typed_result composite eval output values)
  render (plain s ∷ ps) output values = render ps (output ++ s) values
  render (tick ∷ ps) output values = render ps (output ++ b'`' ∷ []) values
  render (slash c ∷ ps) output values = render ps (output ++ b'\\' ∷ c ∷ []) values
  render (expression e ∷ ps) output values =
      after_eval (eval e env) output values (λ o x. render ps o x)
