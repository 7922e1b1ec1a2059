-- ===== src/Expansion/Template.antt =====
-- `evalBackticksInConfigValue` against templates: pieces that are printed into a configuration
-- value, and what each piece contributes to the result.
use exportercreator.Prelude.{ℕ, ◌+◌, ◌≡◌, refl, ap, ◌∙◌, List, [], ◌∷◌, ◌++◌, All, length, Text}
use mathlib.Core.List.{append_assoc}
use exportercreator.Prelude.Outcome.{Outcome}
use exportercreator.Value.{Value, Fields}
use exportercreator.Expansion.{
  Evaluated, value, failure, ExpandError, outside, scan, eval_backticks,
}
use exportercreator.Expansion.Pieces.{
  Piece, plain, tick, slash, expression, IsPiece, print, after_eval, render,
}
use exportercreator.Expansion.Scan.{
  scan_from, scan-byte, scan-plain, scan-inside, scan-tick, scan-slash, scan-open, scan-close,
}

module _ (composite : Value → Text) (eval : Text → Fields → Evaluated) (env : Fields) where
  after_eval-eq :
      (v : Evaluated) (output : Text) (values : List Value)
      (f g : Text → List Value → Outcome ExpandError Value)
      → ((o : Text) (x : List Value) → f o x ≡ g o x)
      → after_eval composite eval env v output values f
        ≡ after_eval composite eval env v output values g
  after_eval-eq (value v) output values f g h = h _ _
  after_eval-eq (failure message) output values f g h = refl

  scan-render :
      (ps : List Piece) (i : ℕ) (output : Text) (values : List Value)
      → All IsPiece ps
      → scan_from composite eval env i (print ps) outside output values
        ≡ render composite eval env ps output values
  scan-render [] i output values h = unfold scan in refl
  scan-render (plain s ∷ ps) i output values h =
      scan-plain composite eval env s i (print ps) output values h.0
      ∙ scan-render ps (i + length s) (output ++ s) values h.1
  scan-render (tick ∷ ps) i output values h =
      scan-tick composite eval env i (print ps) output values
      ∙ scan-render ps (i + 2) (output ++ b'`' ∷ []) values h.1
  scan-render (slash c ∷ ps) i output values h =
      scan-slash composite eval env i c (print ps) output values h.0
      ∙ scan-byte composite eval env (i + 1) c (print ps) (output ++ b'\\' ∷ []) values h.0
      ∙ scan-render ps (i + 1 + 1) ((output ++ b'\\' ∷ []) ++ c ∷ []) values h.1
      ∙ ap (λ o. render composite eval env ps o values) (append_assoc output (b'\\' ∷ []) (c ∷ []))
  scan-render (expression e ∷ ps) i output values h =
      scan-open composite eval env i (e ++ b'`' ∷ print ps) output values
      ∙ scan-inside composite eval env e (i + 1) (i + 1) (b'`' ∷ print ps) [] output values h.0.0
      ∙ scan-close composite eval env (i + 1 + length e) (i + 1) e (print ps) output values h.0.1
      ∙ after_eval-eq (eval e env) output values _ _
          (λ o x. scan-render ps (i + 1 + length e + 1) o x h.1)

  -- A template evaluates to what its pieces contribute: texts and escaped backticks are copied, a
  -- backslash in front of another byte stays, the values of the expressions are rendered, and the
  -- first expression that fails ends it, with nil for an optional field that is missing and with its
  -- error otherwise.
  pub eval_backticks-print :
      (ps : List Piece)
      → All IsPiece ps
      → eval_backticks composite eval (print ps) env ≡ render composite eval env ps [] []
  unfolding eval_backticks
  eval_backticks-print ps h = scan-render ps 0 [] [] h
