-- ===== src/Prelude/Member.antt =====
-- Membership of a list as data, which a proof takes apart by clauses.
use mathlib.Core.Path.{◌≡◌, refl}
use mathlib.Core.Logic.{◌↔◌, ◌⊎◌, inl, inr}
use mathlib.Core.Bool.{Bool, true, false}
use mathlib.Core.List.{List, [], ◌∷◌, ◌++◌}
use exportercreator.Prelude.Tests.{if◌then◌else◌}

pub data In {ℓ} {A : Type ℓ} (x : A) : List A → Type ℓ where
  first : {y : A} {ys : List A} → x ≡ y → In x (y ∷ ys)
  later : {y : A} {ys : List A} → In x ys → In x (y ∷ ys)

module _ {ℓ} {A : Type ℓ} {x : A} where
  pub In-append_left : {xs : List A} (ys : List A) → In x xs → In x (xs ++ ys)
  In-append_left ys (first e) = first e
  In-append_left ys (later h) = later (In-append_left ys h)

  pub In-append_right : (xs : List A) {ys : List A} → In x ys → In x (xs ++ ys)
  In-append_right [] h = h
  In-append_right (y ∷ xs) h = later (In-append_right xs h)

  pub In-append : (xs : List A) {ys : List A} → In x (xs ++ ys) → In x xs ⊎ In x ys
  In-append [] h = inr h
  In-append (y ∷ xs) (first e) = inl (first e)
  In-append (y ∷ xs) (later h) = elim (In-append xs h) [ inl l ↦ inl (later l) | inr r ↦ inr r ]

  -- An item that a test puts in front.
  pub In-if :
      (b : Bool) (y : A) (ys : List A)
      → In x (if b then y ∷ ys else ys) ↔ ((b ≡ true) × (x ≡ y)) ⊎ In x ys
  In-if true y ys = (In-if-true, λ h. elim h [ inl (t, e) ↦ first e | inr l ↦ later l ])
    where
      In-if-true : In x (y ∷ ys) → ((Bool.true ≡ true) × (x ≡ y)) ⊎ In x ys
      In-if-true (first e) = inl (refl, e)
      In-if-true (later h) = inr h
  In-if false y ys = (λ h. inr h, λ h. elim h [ inl (t, e) ↦ absurd cc | inr l ↦ l ])
