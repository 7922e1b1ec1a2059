-- ===== src/Path/Fuel.antt =====
-- The loop of `parsePropertyPath` ends: its fuel, the length of the path, is never used up.
use exportercreator.Prelude.{
  ℕ, zero, suc, ◌-◌, Bool, false, ◌≡◌, ◌≢◌, ◌≤◌, refl, ap, List, [], ◌∷◌, ◌++◌, length,
  length-append, Text, arith,
}
use exportercreator.Prelude.Outcome.{Outcome, ok, err, ◌>>=◌}
use exportercreator.Path.{
  PathError, out_of_fuel, close_key, quoted, span_name, named_key, parse_bracketed_key, parse_key,
  after_key, parse_keys, parse_property_path,
}
use exportercreator.Path.Grammar.{escape}
use exportercreator.Path.Steps.{
  KeyRead, by_name, by_bracket, parse_key_sound, Switched, ended, at_dot, at_bracket,
  after_key_sound,
}

-- A step that does not give up for want of fuel.
abbrev Ends : {A : Type 0} → Outcome PathError A → Type 0
Ends m = m ≢ err out_of_fuel

>>=-Ends :
    {A B : Type 0} (m : Outcome PathError A) (f : A → Outcome PathError B)
    → Ends m
    → ((x : A) → m ≡ ok x → Ends (f x))
    → Ends (m >>= f)
>>=-Ends (ok x) f h more = more x refl
>>=-Ends (err e) f h more = λ q. h (cc q)

close_key-Ends : (from key : Text) (d : ℕ) (rest : Text) → Ends (close_key from key d rest)
unfolding close_key
close_key-Ends from key d rest = λ q. ground arith

quoted-Ends : (from key rest : Text) → Ends (quoted from key rest)
unfolding quoted
quoted-Ends from key [] = λ q. ground arith
quoted-Ends from key (c ∷ []) = λ q. ground arith
quoted-Ends from key (c ∷ d ∷ rest) =
    let escaped = quoted-Ends from (key ++ d ∷ []) rest in
    let plain = quoted-Ends from (key ++ c ∷ []) (d ∷ rest) in
    let closed = close_key-Ends from key d rest in λ q. ground arith

named_key-Ends : (position : ℕ) (read : Text × Text) → Ends (named_key position read)
unfolding named_key
named_key-Ends position ([], rest) = λ q. ground arith
named_key-Ends position (c ∷ key, rest) = λ q. ground arith

parse_bracketed_key-Ends : (from rest : Text) → Ends (parse_bracketed_key from rest)
unfolding parse_bracketed_key
parse_bracketed_key-Ends from [] = λ q. ground arith
parse_bracketed_key-Ends from (c ∷ rest) = let read = quoted-Ends from [] rest in λ q. ground arith

parse_key-Ends : (path : Text) (dot : Bool) (c : ℕ) (cs : Text) → Ends (parse_key path dot c cs)
unfolding parse_key
parse_key-Ends path dot c cs =
    let named = named_key-Ends (length path - length (c ∷ cs)) (span_name (c ∷ cs)) in
    let bracketed = parse_bracketed_key-Ends (c ∷ cs) cs in λ q. ground arith

after_key-Ends : (path behind : Text) → Ends (after_key path behind)
unfolding after_key
after_key-Ends path [] = λ q. ground arith
after_key-Ends path (c ∷ []) = λ q. ground arith
after_key-Ends path (c ∷ d ∷ rest) = λ q. ground arith

filled_length : (k : Text) → k ≢ [] → 1 ≤ length k
filled_length [] h = absurd (h refl)
filled_length (c ∷ k) h = omega arith

-- A key takes a byte at least, and the switch behind it takes nothing back.
KeyRead-le :
    {dot : Bool} {c : ℕ} {cs k behind : Text}
    → KeyRead dot c cs k behind
    → length behind ≤ length cs
KeyRead-le {dot} {c} {cs} {k} {behind} (by_name (filled, bytes) spells) =
    omega (arith, ap length spells, length-append k behind, filled_length k filled)
KeyRead-le {dot} {c} {cs} {k} {behind} (by_bracket closed filled spells) =
    omega (arith, ap length spells, length-append (escape k) (b'"' ∷ b']' ∷ behind))

Switched-le :
    {behind next : Text} {dot : Bool} → Switched behind dot next → length next ≤ length behind
Switched-le (ended e f) = omega (arith, ap length f)
Switched-le (at_dot e f g) = omega (arith, ap length e)
Switched-le (at_bracket t e f g) = omega (arith, ap length e)

parse_keys-Ends :
    (fuel : ℕ) (path : Text) (found : List Text) (dot : Bool) (next : Text)
    → length next ≤ fuel
    → Ends (parse_keys fuel path found dot next)
unfolding parse_keys
parse_keys-Ends zero path found dot [] h = λ q. ground arith
parse_keys-Ends (suc fuel) path found dot [] h = λ q. ground arith
parse_keys-Ends zero path found dot (c ∷ cs) h = absurd (omega arith)
parse_keys-Ends (suc fuel) path found dot (c ∷ cs) h =
    >>=-Ends (parse_key path dot c cs) _ (parse_key-Ends path dot c cs) (λ (key, behind) read.
      >>=-Ends (after_key path behind) _ (after_key-Ends path behind) (λ (dot', next) switched.
        parse_keys-Ends fuel path (found ++ key ∷ []) dot' next (
          omega (
            arith,
            KeyRead-le (parse_key_sound path dot c cs key behind read),
            Switched-le (after_key_sound path behind dot' next switched),
          ))))

-- For every path the parser comes to an end of its own: it returns the keys or one of the errors of
-- the code, and never runs out of the fuel that stands for its loop.
pub parse_property_path_terminates : (path : Text) → parse_property_path path ≢ err out_of_fuel
unfolding parse_property_path
parse_property_path_terminates [] = λ q. ground arith
parse_property_path_terminates (c ∷ rest) =
    let loop = parse_keys-Ends (length (c ∷ rest)) (c ∷ rest) [] false (c ∷ rest) (omega arith) in
    λ q. ground arith
