-- ===== src/Path/Sound.antt =====
-- `parsePropertyPath` accepts no path but those of the grammar.
use exportercreator.Prelude.{
  ℕ, zero, suc, Bool, false, ◌≡◌, ◌≢◌, refl, ap, sym, ◌∙◌, List, [], ◌∷◌, ◌++◌, All, length, Text,
  arith, ◌=?◌, Bool-cases, inl, inr,
}
use mathlib.Core.Path.{subst}
use mathlib.Core.List.{append-nil, append_assoc}
use exportercreator.Prelude.Outcome.{ok, >>=-eq-ok}
use exportercreator.Path.{after_key, parse_property_path}
use exportercreator.Path.Grammar.{
  Segment, dotted, bracketed, key, print_segment, print_segments, print_path, IsName, IsSegment,
  keys,
}
use exportercreator.Path.Steps.{
  by_name, by_bracket, Switched, ended, at_dot, at_bracket, after_key_sound, Round, finished,
  read_key, parse_keys_sound,
}
use exportercreator.Path.Print.{go_on, parse_property_path-start}

-- The suffix behind a key spells the remaining keys.
record Spelled (found ks : List Text) (behind : Text) : Type 0 where
  segments : List Segment
  valid : All IsSegment segments
  spells : behind ≡ print_segments segments
  gives : ks ≡ found ++ keys segments

Spelled-cons :
    (found ks : List Text) (s : Segment) (k behind more : Text)
    → k ≡ key s
    → IsSegment s
    → behind ≡ print_segment s more
    → Spelled (found ++ k ∷ []) ks more
    → Spelled found ks behind
Spelled-cons found ks s k behind more same valid shape r = record {
  segments = s ∷ r.segments;
  valid = (valid, r.valid);
  spells = shape ∙ ap (print_segment s) r.spells;
  gives =
      r.gives
      ∙ append_assoc found (k ∷ []) (keys r.segments)
      ∙ ap (λ j. found ++ j ∷ keys r.segments) same;
}

name_not_bracket : (k rest t : Text) → IsName k → k ++ rest ≡ b'[' ∷ t → ⊥
name_not_bracket [] rest t n e = n.0 refl
name_not_bracket (c ∷ k) rest t n e = ground (arith, n.1.0)

-- The rounds behind a round, with one unit of fuel less.
abbrev Later : ℕ → Text → List Text → Type 0
Later fuel path ks =
    (f : ℕ) (found : List Text) (behind : Text)
    → fuel ≡ suc f
    → go_on f path found behind ≡ ok ks
    → Spelled found ks behind

Round-Spelled :
    (fuel : ℕ) (path : Text) (found ks : List Text) (behind : Text) (dot : Bool) (next : Text)
    → Later fuel path ks
    → Switched behind dot next
    → Round fuel path found ks dot next
    → Spelled found ks behind
Round-Spelled fuel path found ks behind dot next ih (ended b n) (finished _ g) = record {
  segments = [];
  valid = tt;
  spells = b;
  gives = g ∙ sym (append-nil found);
}
Round-Spelled fuel path found ks behind dot next ih (ended b n) (read_key f c cs k t e m r l) =
    absurd cc
Round-Spelled fuel path found ks behind dot next ih (at_dot b d filled) (finished e g) =
    absurd (filled e)
Round-Spelled fuel path found ks behind dot next ih (at_dot b d filled)
      (read_key f c cs k t e m (by_name name shape) l) =
    Spelled-cons found ks (dotted k) k behind t refl name (b ∙ ap (◌∷◌ b'.') (m ∙ shape))
      (ih f (found ++ k ∷ []) t e l)
Round-Spelled fuel path found ks behind dot next ih (at_dot b d filled)
      (read_key f c cs k t e m (by_bracket closed full shape) l) =
    absurd cc
Round-Spelled fuel path found ks behind dot next ih (at_bracket t b n d) (finished e g) = absurd cc
Round-Spelled fuel path found ks behind dot next ih (at_bracket u b n d)
      (read_key f c cs k t e m (by_name name shape) l) =
    absurd (name_not_bracket k t u name (sym shape ∙ sym m ∙ n))
Round-Spelled fuel path found ks behind dot next ih (at_bracket u b n d)
      (read_key f c cs k t e m (by_bracket closed full shape) l) =
    Spelled-cons found ks (bracketed k) k behind t refl full (b ∙ m ∙ shape)
      (ih f (found ++ k ∷ []) t e l)

go_on_round :
    (fuel : ℕ) (path : Text) (found ks : List Text) (behind : Text)
    → Later fuel path ks
    → go_on fuel path found behind ≡ ok ks
    → Spelled found ks behind
go_on_round fuel path found ks behind ih h =
    let ((dot, next), switch, later) = >>=-eq-ok (after_key path behind) _ h in
    Round-Spelled fuel path found ks behind dot next ih
      (after_key_sound path behind dot next switch)
      (parse_keys_sound fuel path found ks dot next later)

go_on_sound :
    (fuel : ℕ) (path : Text) (found ks : List Text) (behind : Text)
    → go_on fuel path found behind ≡ ok ks
    → Spelled found ks behind
go_on_sound zero path found ks behind =
    go_on_round zero path found ks behind (λ f l t e h. absurd (omega arith))
go_on_sound (suc fuel) path found ks behind =
    go_on_round (suc fuel) path found ks behind λ f l t e h.
      let same : f ≡ fuel = omega arith in
      go_on_sound fuel path l ks t (subst (λ n. go_on n path l t ≡ ok ks) same h)

-- A path of the grammar, and the keys that it names.
pub record Parsed (path : Text) (ks : List Text) : Type 0 where
  pub name : Text
  pub segments : List Segment
  pub is_name : IsName name
  pub valid : All IsSegment segments
  pub spells : path ≡ print_path name segments
  pub gives : ks ≡ name ∷ keys segments

first_Parsed :
    (fuel : ℕ) (c : ℕ) (cs : Text) (ks : List Text)
    → (c =? b'[') ≡ false
    → Round fuel (c ∷ cs) [] ks false (c ∷ cs)
    → Parsed (c ∷ cs) ks
first_Parsed fuel c cs ks plain (finished e g) = absurd cc
first_Parsed fuel c cs ks plain (read_key f d ds k t e m (by_bracket closed full shape) l) =
    absurd (let bracket : c ≡ b'[' = cc in ground arith)
first_Parsed fuel c cs ks plain (read_key f d ds k t e m (by_name name shape) l) =
    let r = go_on_sound f (c ∷ cs) (k ∷ []) ks t l in
    record {
      name = k;
      segments = r.segments;
      is_name = name;
      valid = r.valid;
      spells = m ∙ shape ∙ ap (λ b. k ++ b) r.spells;
      gives = r.gives;
    }

-- A path that parses is a path of the grammar, a name and then dotted names and quoted keys, and
-- the parser returns the keys that this writing names.
pub parse_property_path-Parsed :
    (path : Text) (ks : List Text) → parse_property_path path ≡ ok ks → Parsed path ks
parse_property_path-Parsed [] ks h = absurd (unfold parse_property_path in ground arith)
parse_property_path-Parsed (c ∷ cs) ks h = elim (Bool-cases (c =? b'[')) [
  | inl open_ ↦ absurd (unfold parse_property_path in ground arith)
  | inr plain ↦ first_Parsed (suc (length cs)) c cs ks plain (
      parse_keys_sound (suc (length cs)) (c ∷ cs) [] ks false (c ∷ cs)
        (sym (parse_property_path-start c cs plain) ∙ h))
]

-- No key that a path names is empty.
pub parse_property_path-keys_filled :
    (path : Text) (ks : List Text) → parse_property_path path ≡ ok ks → All (λ k. k ≢ []) ks
parse_property_path-keys_filled path ks h =
    let r = parse_property_path-Parsed path ks h in
    rw r.gives (r.is_name.0, keys_filled r.segments r.valid)
  where
    keys_filled : (ss : List Segment) → All IsSegment ss → All (λ k. k ≢ []) (keys ss)
    keys_filled [] v = tt
    keys_filled (dotted k ∷ ss) v = (v.0.0, keys_filled ss v.1)
    keys_filled (bracketed k ∷ ss) v = (v.0, keys_filled ss v.1)
