-- ===== src/Expansion/Scan.antt =====
-- The loop of `evalBackticksInConfigValue` at each kind of piece.
use exportercreator.Prelude.{
  ℕ, suc, ◌+◌, ◌≡◌, refl, ap, ◌∙◌, Bool, false, List, [], ◌∷◌, ◌++◌, All, length, if◌then◌else◌,
  Text, arith,
}
use mathlib.Core.List.{append-nil, append_assoc}
use exportercreator.Prelude.Outcome.{Outcome, err}
use exportercreator.Value.{Value, Fields}
use exportercreator.Expansion.{
  Evaluated, value, failure, ExpandError, empty_expression, is_blank, Mode, outside, inside, return,
  go_on, evaluated, close_expression, scan,
}
use exportercreator.Expansion.Pieces.{IsPlainByte, after_eval}

module _ (composite : Value → Text) (eval : Text → Fields → Evaluated) (env : Fields) where
  abbrev pub scan_from : ℕ → Text → Mode → Text → List Value → Outcome ExpandError Value
  scan_from = scan composite eval env

  pub scan-byte :
      (i c : ℕ) (t output : Text) (values : List Value)
      → IsPlainByte c
      → scan_from i (c ∷ t) outside output values
        ≡ scan_from (i + 1) t outside (output ++ c ∷ []) values
  unfolding scan
  scan-byte i c [] output values (s, b) = rw (s, b)
  scan-byte i c (d ∷ t) output values (s, b) = rw (s, b)

  scan-inside_byte :
      (i c start : ℕ) (t raw output : Text) (values : List Value)
      → IsPlainByte c
      → scan_from i (c ∷ t) (inside start raw) output values
        ≡ scan_from (i + 1) t (inside start (raw ++ c ∷ [])) output values
  unfolding scan
  scan-inside_byte i c start [] raw output values (s, b) = rw (s, b)
  scan-inside_byte i c start (d ∷ t) raw output values (s, b) = rw (s, b)

  shift : (i n : ℕ) → i + 1 + n ≡ i + suc n
  shift i n = omega arith

  pub scan-plain :
      (s : Text) (i : ℕ) (t output : Text) (values : List Value)
      → All IsPlainByte s
      → scan_from i (s ++ t) outside output values
        ≡ scan_from (i + length s) t outside (output ++ s) values
  scan-plain [] i t output values h =
      rw append-nil (ap (λ n. scan_from n t outside output values) (omega arith))
  scan-plain (c ∷ s) i t output values h =
      scan-byte i c (s ++ t) output values h.0
      ∙ scan-plain s (i + 1) t (output ++ c ∷ []) values h.1
      ∙ ap (λ n. scan_from n t outside ((output ++ c ∷ []) ++ s) values) (shift i (length s))
      ∙ ap (λ o. scan_from (i + suc (length s)) t outside o values) (append_assoc output (c ∷ []) s)

  pub scan-inside :
      (e : Text) (i start : ℕ) (t raw output : Text) (values : List Value)
      → All IsPlainByte e
      → scan_from i (e ++ t) (inside start raw) output values
        ≡ scan_from (i + length e) t (inside start (raw ++ e)) output values
  scan-inside [] i start t raw output values h =
      rw append-nil (ap (λ n. scan_from n t (inside start raw) output values) (omega arith))
  scan-inside (c ∷ e) i start t raw output values h =
      scan-inside_byte i c start (e ++ t) raw output values h.0
      ∙ scan-inside e (i + 1) start t (raw ++ c ∷ []) output values h.1
      ∙ ap (λ n. scan_from n t (inside start ((raw ++ c ∷ []) ++ e)) output values)
          (shift i (length e))
      ∙ ap (λ r. scan_from (i + suc (length e)) t (inside start r) output values)
          (append_assoc raw (c ∷ []) e)

  pub scan-tick :
      (i : ℕ) (t output : Text) (values : List Value)
      → scan_from i (b'\\' ∷ b'`' ∷ t) outside output values
        ≡ scan_from (i + 2) t outside (output ++ b'`' ∷ []) values
  unfolding scan
  scan-tick i t output values = refl

  pub scan-slash :
      (i c : ℕ) (t output : Text) (values : List Value)
      → IsPlainByte c
      → scan_from i (b'\\' ∷ c ∷ t) outside output values
        ≡ scan_from (i + 1) (c ∷ t) outside (output ++ b'\\' ∷ []) values
  unfolding scan
  scan-slash i c t output values (s, b) = rw b

  pub scan-open :
      (i : ℕ) (t output : Text) (values : List Value)
      → scan_from i (b'`' ∷ t) outside output values
        ≡ scan_from (i + 1) t (inside (i + 1) []) output values
  unfolding scan
  scan-open i [] output values = refl
  scan-open i (d ∷ t) output values = refl

  close_evaluated :
      (output : Text) (values : List Value) (next : Text → List Value → Outcome ExpandError Value)
      (v : Evaluated)
      → (elim (evaluated composite eval output values v) [ return r ↦ r | go_on o x ↦ next o x ])
        ≡ after_eval composite eval env v output values next
  unfolding evaluated
  close_evaluated output values next (value v) = refl
  close_evaluated output values next (failure message) = refl

  closed :
      (e output : Text) (values : List Value) (next : Text → List Value → Outcome ExpandError Value)
      → is_blank e ≡ false
      → (elim (close_expression composite eval env e output values) [
        | return r ↦ r
        | go_on o x ↦ next o x
      ])
        ≡ after_eval composite eval env (eval e env) output values next
  unfolding close_expression
  closed e output values next h =
      ap
        (λ (b : Bool).
          elim (if b
            then return (err empty_expression)
            else evaluated composite eval output values (eval e env)) [
              | return r ↦ r
              | go_on o x ↦ next o x
            ])
        h
      ∙ close_evaluated output values next (eval e env)

  -- A closing backtick behind an expression that is not blank.
  pub scan-close :
      (i start : ℕ) (e t output : Text) (values : List Value)
      → is_blank e ≡ false
      → scan_from i (b'`' ∷ t) (inside start e) output values
        ≡ after_eval composite eval env
            (eval e env)
            output
            values
            (λ o x. scan_from (i + 1) t outside o x)
  unfolding scan
  scan-close i start e [] output values h =
      closed e output values (λ o x. scan_from (i + 1) [] outside o x) h
  scan-close i start e (d ∷ t) output values h =
      closed e output values (λ o x. scan_from (i + 1) (d ∷ t) outside o x) h
