-- ===== src/Path/Resolve.antt =====
-- The spellings of a resource attribute: the brackets are punctuation.
use exportercreator.Prelude.{
  ℕ, false, ◌≡◌, ap, sym, List, [], ◌∷◌, ◌++◌, All, Text, arith, Bool-cases, inl, inr,
}
use exportercreator.Prelude.Outcome.{ok}
use mathlib.Core.List.{append-nil}
use exportercreator.Path.{join, contains, resolve_attribute_name}
use exportercreator.Path.Grammar.{Segment, dotted, bracketed, print_path, IsName, IsSegment, keys}
use exportercreator.Path.Print.{parse_property_path-print_path}

contains-append : (b : ℕ) (s t : Text) → contains b (s ++ t) ≡ false → contains b t ≡ false
unfolding contains
contains-append b [] t h = h
contains-append b (c ∷ s) t h = contains-append b s t (ground arith)

-- Without a bracket every segment is dotted, and the path is its keys joined by dots.
join-dotted :
    (name : Text) (ss : List Segment)
    → contains b'[' (print_path name ss) ≡ false
    → join (name ∷ keys ss) ≡ print_path name ss
unfolding join contains
join-dotted name [] h = sym (append-nil name)
join-dotted name (bracketed k ∷ ss) h =
    absurd (let c = contains-append b'[' name _ h in ground arith)
join-dotted name (dotted k ∷ ss) h =
    ap (λ t. name ++ b'.' ∷ t) (join-dotted k ss (contains-append b'[' name _ h))

-- Every spelling of an attribute by the grammar resolves, and to the name that joins its keys by
-- dots: a bracketed spelling and the plain one with the same keys name the same attribute.
pub resolve_attribute_name-print_path :
    (name : Text) (ss : List Segment)
    → IsName name
    → All IsSegment ss
    → resolve_attribute_name (print_path name ss) ≡ ok (join (name ∷ keys ss))
unfolding resolve_attribute_name
resolve_attribute_name-print_path name ss n h =
    elim (Bool-cases (contains b'[' (print_path name ss))) [
      | inl bracket ↦ rw (bracket, parse_property_path-print_path name ss n h)
      | inr plain ↦ rw (plain, join-dotted name ss plain)
    ]

-- A spelling with no bracket is the attribute name verbatim, whether or not it is a path.
pub resolve_attribute_name_verbatim :
    (s : Text) → contains b'[' s ≡ false → resolve_attribute_name s ≡ ok s
unfolding resolve_attribute_name
resolve_attribute_name_verbatim s h = rw h
