-- ===== src/ExporterMap.antt =====
-- The multimap of exportermap.go from endpoints to component references.
pub mod Tests
use exportercreator.Prelude.{
  ℕ, ◌+◌, ◌≡◌, refl, ap, ◌∙◌, sym, List, [], ◌∷◌, ◌++◌, if◌then◌else◌, Text, text_Eq, ◌==◌, length,
  length-append, arith, int_add, word, ◌%◌,
}
use exportercreator.Prelude.GoMap.{GoMap, Distinct, lookup, insert, delete, total}
use exportercreator.Prelude.MultiMap.{
  push, slice_at, sizes, lookup-push, slice-delete, total-push, total-delete_slice,
}

abbrev pub ExporterMap : Type 0
ExporterMap = GoMap Text (List ℕ)

unfoldable pub put : Text → ℕ → ExporterMap → ExporterMap
put id exp em = push id exp em

unfoldable pub get : Text → ExporterMap → List ℕ
get id em = slice_at (lookup id em)

unfoldable pub remove_all : Text → ExporterMap → ExporterMap
remove_all id em = delete id em

unfoldable pub values : ExporterMap → List ℕ
values [] = []
values ((id, m) ∷ em) = m ++ values em

-- the loop of `Size`, from a sum so far
unfoldable pub size_from : ℕ → ExporterMap → ℕ
size_from out [] = out
size_from out ((id, m) ∷ em) = size_from (int_add out (length m)) em

unfoldable pub size : ExporterMap → ℕ
unfolding size_from
size em = size_from 0 em

-- An endpoint reads back what was put under it, and keeps what it had; no other endpoint changes.
pub get-put :
    (id j : Text) (exp : ℕ) (em : ExporterMap)
    → get j (put id exp em) ≡ get j em ++ (if id == j then exp ∷ [] else [])
unfolding get put
get-put id j exp em = lookup-push id j exp em

pub get-remove_all :
    (id j : Text) (em : ExporterMap) → get j (remove_all id em) ≡ (if id == j then [] else get j em)
unfolding get remove_all
get-remove_all id j em = slice-delete id j em

pub total-values : (em : ExporterMap) → total sizes em ≡ length (values em)
unfolding total values
total-values [] = refl
total-values ((id, m) ∷ em) = omega (arith, total-values em, length-append m (values em))

size_from-eq :
    (x : ℕ) (em : ExporterMap) → size_from (x % word) em ≡ (x + length (values em)) % word
unfolding size_from values int_add
size_from-eq x [] = ap (λ n. n % word) (omega arith)
size_from-eq x ((id, m) ∷ em) =
    ap (λ n. size_from n em) (omega arith)
    ∙ size_from-eq (x + length m) em
    ∙ ap (λ n. n % word) (omega (arith, length-append m (values em)))

-- `Size` is the number of exporters that `Values` returns; a `Put` makes it one more, and a
-- `RemoveAll` takes off those of its endpoint.
pub size_lem :
    (id : Text) (exp : ℕ) (em : ExporterMap)
    → Distinct em
    → (size em ≡ length (values em) % word)
      × (length (values (put id exp em)) ≡ length (values em) + 1)
      × (length (values (remove_all id em)) + length (get id em) ≡ length (values em))
unfolding size put remove_all get
size_lem id exp em d = (
  size_from-eq 0 em ∙ ap (λ n. n % word) (omega arith),
  omega (arith, total-values em, total-values (push id exp em), total-push id exp em),
  omega (arith, total-values em, total-values (delete id em), total-delete_slice id em d),
)
