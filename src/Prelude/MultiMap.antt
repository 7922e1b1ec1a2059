-- ===== src/Prelude/MultiMap.antt =====
-- Maps of slices, `m[k] = append(m[k], x)` and `delete(m, k)`, and maps of numbers, `m[k] += d`.
use Prim.Native.Nat.{ℕ, ◌+◌, ◌%◌}
use mathlib.Core.Path.{◌≡◌, refl, ap, ◌∙◌}
use mathlib.Core.Logic.{inl, inr}
use mathlib.Core.Option.{Option, none, some}
use mathlib.Core.List.{List, [], ◌∷◌, ◌++◌, append-nil}
use native.Mathlib.Omega.{arith}
use exportercreator.Prelude.Tests.{if◌then◌else◌, Bool-cases}
use exportercreator.Prelude.Lists.{length, length-append}
use exportercreator.Prelude.Word.{word, int_add, int_sub, int_add-one, int_sub-by}
use exportercreator.Prelude.Equality.{Eq, ◌==◌}
use exportercreator.Prelude.GoMap.{
  GoMap, Distinct, lookup, insert, delete, total, weight, lookup-insert, lookup-delete,
  total-insert, total-delete,
}

-- `m[k]` where a missing key reads as an empty slice, or as 0
abbrev pub slice_at {ℓ} : {A : Type ℓ} → Option (List A) → List A
slice_at none = []
slice_at (some xs) = xs

abbrev pub number_at : Option ℕ → ℕ
number_at none = 0
number_at (some n) = n

module _ {ℓ κ} {K : Type ℓ} {A : Type κ} ⦃e : Eq K⦄ where
  -- `m[k] = append(m[k], x)`
  abbrev pub push : K → A → GoMap K (List A) → GoMap K (List A)
  push k x m = insert k (slice_at (lookup k m) ++ x ∷ []) m

  abbrev pub sizes : K → List A → ℕ
  sizes k xs = length xs

  weight-sizes : (k : K) (o : Option (List A)) → weight sizes k o ≡ length (slice_at o)
  weight-sizes k none = refl
  weight-sizes k (some xs) = refl

  pub lookup-push :
      (k j : K) (x : A) (m : GoMap K (List A))
      → slice_at (lookup j (push k x m)) ≡ slice_at (lookup j m) ++ (if k == j then x ∷ [] else [])
  lookup-push k j x m = rw lookup-insert (elim (Bool-cases (k == j)) [
    | inl same ↦ let q : k ≡ j = (e.beq_iff k j).0 same in rw (same, q)
    | inr other ↦ rw (other, append-nil)
  ])

  pub slice-delete :
      (k j : K) (m : GoMap K (List A))
      → slice_at (lookup j (delete k m)) ≡ (if k == j then [] else slice_at (lookup j m))
  slice-delete k j m =
      rw lookup-delete (elim (Bool-cases (k == j)) [ inl same ↦ rw same | inr other ↦ rw other ])

  pub total-push :
      (k : K) (x : A) (m : GoMap K (List A)) → total sizes (push k x m) ≡ total sizes m + 1
  total-push k x m = omega (
    arith,
    total-insert sizes k (slice_at (lookup k m) ++ x ∷ []) m,
    weight-sizes k (lookup k m),
    length-append (slice_at (lookup k m)) (x ∷ []),
  )

  pub total-delete_slice :
      (k : K) (m : GoMap K (List A))
      → Distinct m
      → total sizes (delete k m) + length (slice_at (lookup k m)) ≡ total sizes m
  total-delete_slice k m d = omega (arith, total-delete sizes k m d, weight-sizes k (lookup k m))

module _ {ℓ} {K : Type ℓ} ⦃e : Eq K⦄ where
  pub number-insert :
      (k j : K) (n : ℕ) (m : GoMap K ℕ)
      → number_at (lookup j (insert k n m)) ≡ (if k == j then n else number_at (lookup j m))
  number-insert k j n m =
      rw lookup-insert (elim (Bool-cases (k == j)) [ inl same ↦ rw same | inr other ↦ rw other ])

  -- `m[k]++` and `m[k]--`
  abbrev pub increment : K → GoMap K ℕ → GoMap K ℕ
  increment k m = insert k (int_add (number_at (lookup k m)) 1) m

  abbrev pub decrement : K → GoMap K ℕ → GoMap K ℕ
  decrement k m = insert k (int_sub (number_at (lookup k m)) 1) m

  abbrev pub hit : K → K → ℕ
  hit k j = if k == j then 1 else 0

  pub number-increment :
      (k j : K) (m : GoMap K ℕ) (x : ℕ)
      → number_at (lookup j m) ≡ x % word
      → number_at (lookup j (increment k m)) ≡ (x + hit k j) % word
  number-increment k j m x h = number-insert k j _ m ∙ elim (Bool-cases (k == j)) [
    | inl same ↦ let q : k ≡ j = (e.beq_iff k j).0 same in rw (same, q) (int_add-one _ x h)
    | inr other ↦ rw other (h ∙ ap (λ n. n % word) (omega arith))
  ]

  pub number-decrement :
      (k j : K) (m : GoMap K ℕ) (x : ℕ)
      → number_at (lookup j m) ≡ (x + hit k j) % word
      → number_at (lookup j (decrement k m)) ≡ x % word
  number-decrement k j m x h = number-insert k j _ m ∙ elim (Bool-cases (k == j)) [
    | inl same ↦
        let q : k ≡ j = (e.beq_iff k j).0 same in
        let one : hit k j ≡ 1 = rw same in
        rw (same, q) (int_sub-by _ x 1 (h ∙ ap (λ n. (x + n) % word) one))
    | inr other ↦
        let zero : hit k j ≡ 0 = rw other in rw other (h ∙ ap (λ n. n % word) (omega arith))
  ]
