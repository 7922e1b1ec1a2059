-- ===== src/Rules/Takes.antt =====
-- The parts of the pattern, and what each takes off the front of a text.
use exportercreator.Prelude.{
  ℕ, ◌≡◌, ◌≢◌, ◌↔◌, refl, ap, ◌∙◌, arith, Bool, true, false, Bool-cases, inl, inr, [], ◌∷◌, ◌++◌,
  Option, none, some, All, if◌then◌else◌, ◌=?◌, Text,
}
use exportercreator.Rules.Pattern.{
  any_rune, and_then, holds_for, literal, match_name, match_literals, is_space, skip_spaces,
}

-- A text that a name in the pattern takes off the front, with what is left: a dot stands for any
-- rune but the end of a line, every other byte for itself.
pub data Takes : Text → Text → Text → Type 0 where
  done : (s : Text) → Takes [] s s
  byte : (p : ℕ) (ps s rest : Text) → p ≢ b'.' → Takes ps s rest → Takes (p ∷ ps) (p ∷ s) rest
  rune : (ps s s' rest : Text) → any_rune s ≡ some s' → Takes ps s' rest → Takes (b'.' ∷ ps) s rest

pub and_then-some :
    (o : Option Text) (f : Text → Option Text) (rest : Text)
    → and_then o f ≡ some rest
    → (s : Text) × (o ≡ some s) × (f s ≡ some rest)
and_then-some none f rest h = absurd (cc h)
and_then-some (some s) f rest h = (s, refl, h)

pub holds_for_iff :
    (o : Option Text) (f : Text → Bool)
    → (holds_for o f ≡ true) ↔ ((s : Text) × (o ≡ some s) × (f s ≡ true))
holds_for_iff none f = (λ h. absurd (cc h), λ (s, e, h). absurd (cc e))
holds_for_iff (some r) f = (λ h. (r, refl, h), λ (s, e, h). let q : r ≡ s = cc e in rw q h)

pub literal-some : (p : ℕ) (s rest : Text) → literal p s ≡ some rest → s ≡ p ∷ rest
unfolding literal
literal-some p [] rest h = absurd (cc h)
literal-some p (c ∷ s) rest h = ground arith

pub literal-cons : (p : ℕ) (rest : Text) → literal p (p ∷ rest) ≡ some rest
unfolding literal
literal-cons p rest = ground arith

pub match_literals-some : (ps s rest : Text) → match_literals ps s ≡ some rest → s ≡ ps ++ rest
unfolding match_literals
match_literals-some [] s rest h = cc h
match_literals-some (p ∷ ps) s rest h =
    let (s', front, more) = and_then-some (literal p s) _ rest h in
    literal-some p s s' front ∙ ap (λ (t : Text). p ∷ t) (match_literals-some ps s' rest more)

pub match_literals-append : (ps rest : Text) → match_literals ps (ps ++ rest) ≡ some rest
unfolding match_literals
match_literals-append [] rest = refl
match_literals-append (p ∷ ps) rest =
    rw (literal-cons p (ps ++ rest)) (match_literals-append ps rest)

pub match_name-Takes : (ps s rest : Text) → match_name ps s ≡ some rest → Takes ps s rest
unfolding match_name
match_name-Takes [] s rest h = let q : s ≡ rest = cc h in rw q (done rest)
match_name-Takes (p ∷ ps) s rest h =
    let (s', front, more) =
      and_then-some (if p =? b'.' then any_rune s else literal p s) _ rest h in
    elim (Bool-cases (p =? b'.')) [
      | inl dot ↦
          let is_dot : p ≡ b'.' = ground arith in
          rw is_dot (rune ps s s' rest (rw dot at front) (match_name-Takes ps s' rest more))
      | inr plain ↦
          let q : s ≡ p ∷ s' = literal-some p s s' (rw plain at front) in
          rw q (byte p ps s' rest (ground arith) (match_name-Takes ps s' rest more))
    ]

pub Takes-match_name : {ps s rest : Text} → Takes ps s rest → match_name ps s ≡ some rest
unfolding match_name
Takes-match_name (done s) = refl
Takes-match_name (byte p ps s rest plain more) =
    let other : (p =? b'.') ≡ false = ground arith in
    rw (other, literal-cons p s) (Takes-match_name more)
Takes-match_name (rune ps s s' rest front more) = rw front (Takes-match_name more)

-- `\s*` takes all the spaces that there are.
pub skip_spaces-split :
    (s : Text)
    → (spaces : Text) × All (λ c. is_space c ≡ true) spaces × (s ≡ spaces ++ skip_spaces s)
unfolding skip_spaces
skip_spaces-split [] = ([], tt, refl)
skip_spaces-split (c ∷ s) = elim (Bool-cases (is_space c)) [
  | inl space ↦
      let (spaces, all, e) = skip_spaces-split s in
      (c ∷ spaces, (space, all), rw space (ap (λ (t : Text). c ∷ t) e))
  | inr other ↦ ([], tt, rw other refl)
]

pub skip_spaces-append :
    (spaces : Text) (c : ℕ) (s : Text)
    → All (λ c. is_space c ≡ true) spaces
    → is_space c ≡ false
    → skip_spaces (spaces ++ c ∷ s) ≡ c ∷ s
unfolding skip_spaces
skip_spaces-append [] c s all other = rw other refl
skip_spaces-append (d ∷ spaces) c s (space, all) other =
    rw space (skip_spaces-append spaces c s all other)
