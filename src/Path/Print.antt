-- ===== src/Path/Print.antt =====
-- `parsePropertyPath` reads back every path of the grammar.
use exportercreator.Prelude.{
  ℕ, zero, suc, ◌≤◌, ◌<◌, Bool, true, false, ◌≡◌, ◌≢◌, refl, ap, ◌∙◌, List, [], ◌∷◌, ◌++◌, All,
  length, length-append, Text, arith, ◌=?◌,
}
use mathlib.Core.List.{append-nil, append_assoc}
use exportercreator.Prelude.Outcome.{Outcome, ok, ◌>>=◌}
use exportercreator.Path.{PathError, parse_key, after_key, parse_keys, parse_property_path}
use exportercreator.Path.Grammar.{
  Segment, dotted, bracketed, print_segments, print_path, PlainBytes, Stops, IsName, IsSegment,
  keys, escape, span_name-append, print_segments-Stops, quoted-escape,
}

-- the loop after a key: the switch and the rounds behind it
abbrev pub go_on : ℕ → Text → List Text → Text → Outcome PathError (List Text)
go_on fuel path found behind =
    after_key path behind >>= λ next. parse_keys fuel path found next.0 next.1

parse_key-name :
    (path rest : Text) (dot : Bool) (c : ℕ) (cs : Text)
    → PlainBytes (c ∷ cs)
    → Stops rest
    → parse_key path dot c (cs ++ rest) ≡ ok (c ∷ cs, rest)
unfolding parse_key
parse_key-name path rest dot c cs n s = ground (arith, span_name-append cs rest n.1 s)

parse_key-bracketed :
    (path k rest : Text)
    → k ≢ []
    → parse_key path false b'[' (b'"' ∷ escape k ++ b'"' ∷ b']' ∷ rest) ≡ ok (k, rest)
unfolding parse_key
parse_key-bracketed path k rest h = quoted-escape _ [] k rest h

length-behind : (k rest : Text) → k ≢ [] → length rest < length (k ++ rest)
length-behind [] rest h = absurd (h refl)
length-behind (c ∷ k) rest h = omega (arith, length-append k rest)

-- One round of the loop, once its key is known.
parse_keys-step :
    (fuel : ℕ) (path : Text) (found : List Text) (dot : Bool) (c : ℕ) (cs k behind : Text)
    → parse_key path dot c cs ≡ ok (k, behind)
    → parse_keys (suc fuel) path found dot (c ∷ cs) ≡ go_on fuel path (found ++ k ∷ []) behind
unfolding parse_keys
parse_keys-step fuel path found dot c cs k behind h = rw h

snoc-append :
    (found : List Text) (k : Text) (ks : List Text) → (found ++ k ∷ []) ++ ks ≡ found ++ k ∷ ks
snoc-append found k ks = append_assoc found (k ∷ []) ks

parse_keys-end :
    (fuel : ℕ) (path : Text) (found : List Text)
    → parse_keys fuel path found false [] ≡ ok (found ++ [])
unfolding parse_keys
parse_keys-end fuel path found = rw append-nil

go_on-segments :
    (fuel : ℕ) (path : Text) (found : List Text) (ss : List Segment)
    → All IsSegment ss
    → length (print_segments ss) ≤ fuel
    → go_on fuel path found (print_segments ss) ≡ ok (found ++ keys ss)
unfolding after_key
go_on-segments zero path found [] h b = parse_keys-end zero path found
go_on-segments (suc fuel) path found [] h b = parse_keys-end (suc fuel) path found
go_on-segments zero path found (dotted k ∷ ss) h b = absurd (omega arith)
go_on-segments zero path found (bracketed k ∷ ss) h b = absurd (omega arith)
go_on-segments (suc fuel) path found (dotted [] ∷ ss) h b = absurd (h.0.0 refl)
go_on-segments (suc fuel) path found (dotted (c ∷ cs) ∷ ss) h b =
    parse_keys-step fuel path found true c (cs ++ print_segments ss) (c ∷ cs) (print_segments ss)
      (parse_key-name path (print_segments ss) true c cs h.0.1 (print_segments-Stops ss))
    ∙ go_on-segments fuel path (found ++ (c ∷ cs) ∷ []) ss h.1
        (omega (arith, length-append cs (print_segments ss)))
    ∙ ap (λ l. ok l) (snoc-append found (c ∷ cs) (keys ss))
go_on-segments (suc fuel) path found (bracketed k ∷ ss) h b =
    parse_keys-step fuel path found false b'[' _ k (print_segments ss)
      (parse_key-bracketed path k (print_segments ss) h.0)
    ∙ go_on-segments fuel path (found ++ k ∷ []) ss h.1
        (omega (arith, length-append (escape k) (b'"' ∷ b']' ∷ print_segments ss)))
    ∙ ap (λ l. ok l) (snoc-append found k (keys ss))

pub parse_property_path-start :
    (c : ℕ) (cs : Text)
    → (c =? b'[') ≡ false
    → parse_property_path (c ∷ cs) ≡ parse_keys (suc (length cs)) (c ∷ cs) [] false (c ∷ cs)
unfolding parse_property_path
parse_property_path-start c cs h = rw h

-- A path that is written by the grammar, a name and then dotted names and quoted keys, parses to
-- the keys that it was written from, whatever bytes the quoted keys hold.
pub parse_property_path-print_path :
    (name : Text) (ss : List Segment)
    → IsName name
    → All IsSegment ss
    → parse_property_path (print_path name ss) ≡ ok (name ∷ keys ss)
parse_property_path-print_path [] ss n h = absurd (n.0 refl)
parse_property_path-print_path (c ∷ cs) ss n h =
    let path = print_path (c ∷ cs) ss in
    parse_property_path-start c (cs ++ print_segments ss) (ground arith)
    ∙ parse_keys-step (length (cs ++ print_segments ss)) path [] false c (cs ++ print_segments ss)
        (c ∷ cs) (print_segments ss)
        (parse_key-name path (print_segments ss) false c cs n.1 (print_segments-Stops ss))
    ∙ go_on-segments (length (cs ++ print_segments ss)) path ((c ∷ cs) ∷ []) ss h
        (omega (arith, length-append cs (print_segments ss)))
