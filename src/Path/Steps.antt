-- ===== src/Path/Steps.antt =====
-- What each successful step of `parsePropertyPath` has read.
use exportercreator.Prelude.{
  ℕ, zero, suc, Bool, true, false, ◌≡◌, ◌≢◌, refl, ap, sym, ◌∙◌, List, [], ◌∷◌, ◌++◌, length, Text,
  arith, ◌=?◌, Bool-cases, inl, inr, ◌-◌,
}
use mathlib.Core.Path.{subst}
use exportercreator.Prelude.Outcome.{ok, >>=-eq-ok}
use exportercreator.Path.{
  span_name, named_key, parse_bracketed_key, parse_key, after_key, parse_keys,
}
use exportercreator.Path.Grammar.{PlainBytes, IsName, escape, span_name_sound, quoted_sound}
use exportercreator.Path.Print.{go_on}

-- How a key that was read stands in the path.
pub data KeyRead (dot : Bool) (c : ℕ) (cs k behind : Text) : Type 0 where
  by_name : IsName k → c ∷ cs ≡ k ++ behind → KeyRead dot c cs k behind
  by_bracket :
      dot ≡ false
      → k ≢ []
      → ◌≡◌ {A = Text} (c ∷ cs) (b'[' ∷ b'"' ∷ escape k ++ b'"' ∷ b']' ∷ behind)
      → KeyRead dot c cs k behind

named_key_sound :
    (position : ℕ) (name rest k behind : Text)
    → named_key position (name, rest) ≡ ok (k, behind)
    → (k ≢ []) × (name ≡ k) × (rest ≡ behind)
unfolding named_key
named_key_sound position [] rest k behind h = absurd (ground arith)
named_key_sound position (c ∷ name) rest k behind h = (ground arith, ground arith, ground arith)

parse_bracketed_key_sound :
    (from cs k behind : Text)
    → parse_bracketed_key from cs ≡ ok (k, behind)
    → (k ≢ []) × (cs ≡ b'"' ∷ escape k ++ b'"' ∷ b']' ∷ behind)
unfolding parse_bracketed_key
parse_bracketed_key_sound from [] k behind h = absurd (ground arith)
parse_bracketed_key_sound from (c ∷ cs) k behind h =
    let r = quoted_sound from [] cs k behind (ground arith) in
    let quote : c ≡ b'"' = ground arith in
    (r.filled, rw (quote, r.builds) (ap (λ (t : Text). b'"' ∷ t) r.spells))

parse_key-named :
    (path : Text) (dot : Bool) (c : ℕ) (cs : Text)
    → (c =? b'[') ≡ false
    → parse_key path dot c cs ≡ named_key (length path - length (c ∷ cs)) (span_name (c ∷ cs))
unfolding parse_key
parse_key-named path dot c cs h = rw h

parse_key-open :
    (path : Text) (dot : Bool) (c : ℕ) (cs k behind : Text)
    → (c =? b'[') ≡ true
    → parse_key path dot c cs ≡ ok (k, behind)
    → (dot ≡ false) × (parse_bracketed_key (c ∷ cs) cs ≡ ok (k, behind))
unfolding parse_key
parse_key-open path true c cs k behind e h = ground arith
parse_key-open path false c cs k behind e h = (refl, rw e at h)

pub parse_key_sound :
    (path : Text) (dot : Bool) (c : ℕ) (cs k behind : Text)
    → parse_key path dot c cs ≡ ok (k, behind)
    → KeyRead dot c cs k behind
parse_key_sound path dot c cs k behind h = elim (Bool-cases (c =? b'[')) [
  | inl open_ ↦
      let (closed, read) = parse_key-open path dot c cs k behind open_ h in
      let (filled, spells) = parse_bracketed_key_sound (c ∷ cs) cs k behind read in
      let bracket : c ≡ b'[' = ground arith in by_bracket closed filled (rw (bracket, spells))
  | inr plain ↦
      let (name, rest) = span_name (c ∷ cs) in
      let (filled, same, left) =
        named_key_sound _ name rest k behind (sym (parse_key-named path dot c cs plain) ∙ h) in
      let (bytes, spells) = span_name_sound (c ∷ cs) name rest refl in
      by_name (filled, subst PlainBytes same bytes)
        (spells ∙ ap (λ n. n ++ rest) same ∙ ap (λ r. k ++ r) left)
]

-- Where the key behind a switch starts.
pub data Switched (behind : Text) (dot : Bool) (next : Text) : Type 0 where
  ended : behind ≡ [] → next ≡ [] → Switched behind dot next
  at_dot : behind ≡ b'.' ∷ next → dot ≡ true → next ≢ [] → Switched behind dot next
  at_bracket : (t : Text) → behind ≡ next → next ≡ b'[' ∷ t → dot ≡ false → Switched behind dot next

pub after_key_sound :
    (path behind : Text) (dot : Bool) (next : Text)
    → after_key path behind ≡ ok (dot, next)
    → Switched behind dot next
unfolding after_key
after_key_sound path [] dot next h = ended refl (ground arith)
after_key_sound path (c ∷ []) dot next h =
    at_bracket [] (ground arith) (ground arith) (ground arith)
after_key_sound path (c ∷ d ∷ rest) dot next h = elim (Bool-cases (c =? b'.')) [
  | inl is_dot ↦
      let point : c ≡ b'.' = ground arith in
      let same : (d ∷ rest) ≡ next = ground arith in
      at_dot (rw (point, ← same)) (ground arith) (ground arith)
  | inr other ↦ at_bracket (d ∷ rest) (ground arith) (ground arith) (ground arith)
]

-- What a successful round of the loop has done: it was at the end, or it read a key and went on.
pub data Round (fuel : ℕ) (path : Text) (found ks : List Text) (dot : Bool) (next : Text)
    : Type 0 where
  finished : next ≡ [] → ks ≡ found → Round fuel path found ks dot next
  read_key :
      (f c : ℕ) (cs k behind : Text)
      → fuel ≡ suc f
      → next ≡ c ∷ cs
      → KeyRead dot c cs k behind
      → go_on f path (found ++ k ∷ []) behind ≡ ok ks
      → Round fuel path found ks dot next

pub parse_keys_sound :
    (fuel : ℕ) (path : Text) (found ks : List Text) (dot : Bool) (next : Text)
    → parse_keys fuel path found dot next ≡ ok ks
    → Round fuel path found ks dot next
unfolding parse_keys
parse_keys_sound zero path found ks dot [] h = finished refl (ground arith)
parse_keys_sound (suc fuel) path found ks dot [] h = finished refl (ground arith)
parse_keys_sound zero path found ks dot (c ∷ cs) h = absurd (ground arith)
parse_keys_sound (suc fuel) path found ks dot (c ∷ cs) h =
    let ((k, behind), read, later) = >>=-eq-ok (parse_key path dot c cs) _ h in
    read_key fuel c cs k behind refl refl (parse_key_sound path dot c cs k behind read) later
