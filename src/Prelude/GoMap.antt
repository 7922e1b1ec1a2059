-- ===== src/Prelude/GoMap.antt =====
-- A Go map, as the list of its entries in the order in which a `range` over it visits them. Go
-- leaves that order open, so every theorem here holds for every order.
use Prim.Native.Nat.{ℕ, ◌+◌}
use mathlib.Core.Path.{◌≡◌, refl}
use mathlib.Core.Option.{Option, none, some}
use mathlib.Core.List.{List, [], ◌∷◌}
use native.Mathlib.Omega.{arith}
use mathlib.Core.Logic.{inl, inr}
use exportercreator.Prelude.Tests.{if◌then◌else◌, Bool-cases}
use exportercreator.Prelude.Lists.{All}
use exportercreator.Prelude.Equality.{Eq, ◌==◌}

abbrev pub GoMap {ℓ κ} : Type ℓ → Type κ → Type (ℓ ⊔ κ)
GoMap K V = List (K × V)

module _ {ℓ κ} {K : Type ℓ} {V : Type κ} ⦃e : Eq K⦄ where
  -- `v, ok := m[k]`
  unfoldable pub lookup : K → GoMap K V → Option V
  lookup k [] = none
  lookup k ((j, v) ∷ m) = if j == k then some v else lookup k m

  -- `m[k] = v`
  unfoldable pub insert : K → V → GoMap K V → GoMap K V
  insert k v [] = (k, v) ∷ []
  insert k v ((j, w) ∷ m) = if j == k then (j, v) ∷ m else (j, w) ∷ insert k v m

  -- `delete(m, k)`
  unfoldable pub delete : K → GoMap K V → GoMap K V
  delete k [] = []
  delete k ((j, w) ∷ m) = let rest = delete k m in if j == k then rest else (j, w) ∷ rest

  -- Every key stands once, as in any Go map.
  abbrev pub Distinct : GoMap K V → Type κ
  Distinct [] = Unit
  Distinct ((k, v) ∷ m) = (lookup k m ≡ none) × Distinct m

  -- The sum of a measure over the entries.
  unfoldable pub total : (K → V → ℕ) → GoMap K V → ℕ
  total f [] = 0
  total f ((k, v) ∷ m) = f k v + total f m

  abbrev pub weight : (K → V → ℕ) → K → Option V → ℕ
  weight f k none = 0
  weight f k (some v) = f k v

module _ {ℓ κ} {K : Type ℓ} {V : Type κ} ⦃e : Eq K⦄ where
  pub lookup-insert :
      (to from : K) (new : V) (m : GoMap K V)
      → lookup from (insert to new m) ≡ (if to == from then some new else lookup from m)
  unfolding lookup insert
  lookup-insert to from new [] = refl
  lookup-insert to from new ((i, old) ∷ rest) =
      ground
        (arith, e.beq_iff to from, e.beq_iff i to, e.beq_iff i from, lookup-insert to from new rest)

  pub lookup-delete :
      (k j : K) (m : GoMap K V) → lookup j (delete k m) ≡ (if k == j then none else lookup j m)
  unfolding lookup delete
  lookup-delete k j [] = ground arith
  lookup-delete k j ((i, w) ∷ m) =
      ground (arith, e.beq_iff k j, e.beq_iff i k, e.beq_iff i j, lookup-delete k j m)

  pub insert-Distinct : (k : K) (v : V) (m : GoMap K V) → Distinct m → Distinct (insert k v m)
  unfolding lookup insert
  insert-Distinct k v [] h = (refl, tt)
  insert-Distinct k v ((i, w) ∷ m) h =
      ground (arith, e.beq_iff i k, e.beq_iff k i, lookup-insert k i v m, insert-Distinct k v m h.1)

  -- what every entry has, after an insertion too
  pub insert-All :
      (P : K × V → Type 0) (k : K) (v : V) (m : GoMap K V)
      → P (k, v)
      → All P m
      → All P (insert k v m)
  unfolding insert
  insert-All P k v [] new h = (new, tt)
  insert-All P k v ((i, w) ∷ m) new h = elim (Bool-cases (i == k)) [
    | inl same ↦ let q : i ≡ k = (e.beq_iff i k).0 same in rw same (rw q new, h.1)
    | inr other ↦ rw other (h.0, insert-All P k v m new h.1)
  ]

  pub delete-Distinct : (k : K) (m : GoMap K V) → Distinct m → Distinct (delete k m)
  unfolding lookup delete
  delete-Distinct k [] h = tt
  delete-Distinct k ((i, w) ∷ m) h =
      ground (arith, e.beq_iff i k, e.beq_iff k i, lookup-delete k i m, delete-Distinct k m h.1)

  delete-absent : (k : K) (m : GoMap K V) → lookup k m ≡ none → delete k m ≡ m
  unfolding lookup delete
  delete-absent k [] h = refl
  delete-absent k ((i, w) ∷ m) h = ground (arith, delete-absent k m)

  pub total-insert :
      (f : K → V → ℕ) (k : K) (v : V) (m : GoMap K V)
      → total f (insert k v m) + weight f k (lookup k m) ≡ total f m + f k v
  unfolding lookup insert total
  total-insert f k v [] = omega arith
  total-insert f k v ((i, w) ∷ m) = ground (arith, e.beq_iff i k, total-insert f k v m)

  pub total-delete :
      (f : K → V → ℕ) (k : K) (m : GoMap K V)
      → Distinct m
      → total f (delete k m) + weight f k (lookup k m) ≡ total f m
  unfolding lookup delete total
  total-delete f k [] h = omega arith
  total-delete f k ((i, w) ∷ m) h =
      ground (arith, e.beq_iff i k, total-delete f k m h.1, delete-absent k m, h.0)
