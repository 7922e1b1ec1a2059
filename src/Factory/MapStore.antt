-- ===== src/Factory/MapStore.antt =====
-- A component store as a map from configurations to components, which meets the laws that the
-- factory relies on.
use exportercreator.Prelude.{
  ℕ, ◌≡◌, ◌≢◌, refl, ap, sym, ◌∙◌, arith, Bool, true, false, Bool-cases, inl, inr, [], ◌∷◌, Option,
  none, some, if◌then◌else◌, ◌=?◌, nat_Eq,
}
use exportercreator.Prelude.GoMap.{GoMap, lookup, insert, delete, lookup-insert, lookup-delete}
use exportercreator.Factory.{SharedComponents}

abbrev pub is_at : Option ℕ → ℕ → Bool
is_at none h = false
is_at (some x) h = x =? h

-- the configuration of a component, sought among entries of the map
abbrev pub key_of : ℕ → GoMap ℕ ℕ → GoMap ℕ ℕ → Option ℕ
key_of h s [] = none
key_of h s ((k, v) ∷ m) = if is_at (lookup k s) h then some k else key_of h s m

is_at-eq : (o : Option ℕ) (h : ℕ) → is_at o h ≡ true → o ≡ some h
is_at-eq none h e = absurd (ground arith)
is_at-eq (some x) h e = ground arith

key_of-some : (h : ℕ) (s m : GoMap ℕ ℕ) (k : ℕ) → key_of h s m ≡ some k → lookup k s ≡ some h
key_of-some h s [] k e = absurd (cc e)
key_of-some h s ((j, v) ∷ m) k e = elim (Bool-cases (is_at (lookup j s) h)) [
  | inl at ↦
      let q : j ≡ k = let r : some j ≡ some k = rw at at e in cc r in
      ap (λ i. lookup i s) (sym q) ∙ is_at-eq (lookup j s) h at
  | inr other ↦ key_of-some h s m k (rw other at e)
]

key_of-none :
    (h : ℕ) (s m : GoMap ℕ ℕ)
    → key_of h s m ≡ none
    → (k v : ℕ) → lookup k m ≡ some v
    → lookup k s ≢ some h
unfolding lookup
key_of-none h s [] e k v l = absurd (cc l)
key_of-none h s ((j, w) ∷ m) e k v l = elim (Bool-cases (is_at (lookup j s) h)) [
  | inl at ↦ let q : some j ≡ none = rw at at e in absurd (cc q)
  | inr other ↦ elim (Bool-cases (j =? k)) [
    | inl same ↦ λ there.
        let key : j ≡ k = ground arith in
        let now : lookup j s ≡ some h = ap (λ i. lookup i s) key ∙ there in
        let q : (h =? h) ≡ false = rw now at other in absurd (ground arith)
    | inr apart ↦ key_of-none h s m (rw other at e) k v (rw apart at l)
  ]
]

abbrev pub get_or_put : ℕ → ℕ → GoMap ℕ ℕ → Option ℕ → ℕ × GoMap ℕ ℕ
get_or_put k made s (some h) = (h, s)
get_or_put k made s none = (made, insert k made s)

abbrev pub without : GoMap ℕ ℕ → Option ℕ → Bool × GoMap ℕ ℕ
without s (some k) = (true, delete k s)
without s none = (false, s)

pub get_or_put-added :
    (k made : ℕ) (s : GoMap ℕ ℕ)
    → lookup k s ≡ none
    → let (h, s') = get_or_put k made s (lookup k s) in
      (h ≡ made) × ((j : ℕ) → lookup j s' ≡ (if k =? j then some h else lookup j s))
get_or_put-added k made s e = rw e (refl, λ j. lookup-insert k j made s)

pub without-first :
    (h : ℕ) (s : GoMap ℕ ℕ) (o : Option ℕ)
    → key_of h s s ≡ o
    → (without s o).0 ≡ true
    → (k : ℕ) × (lookup k s ≡ some h)
      × ((j : ℕ) → lookup j (without s o).1 ≡ (if k =? j then none else lookup j s))
without-first h s none e first = absurd (cc first)
without-first h s (some k) e first = (k, key_of-some h s s k e, λ j. lookup-delete k j s)

pub without-again :
    (h : ℕ) (s : GoMap ℕ ℕ) (o : Option ℕ)
    → key_of h s s ≡ o
    → (without s o).0 ≡ false
    → ((k : ℕ) → lookup k s ≢ some h) × ((without s o).1 ≡ s)
without-again h s (some k) e again = absurd (cc again)
without-again h s none e again = (λ k there. key_of-none h s s e k h there there, refl)

pub lookup-empty : (k : ℕ) → lookup {V = ℕ} k [] ≡ none
unfolding lookup
lookup-empty k = refl

abbrev pub map_store : SharedComponents
map_store = record {
  Store = GoMap ℕ ℕ;
  Handle = ℕ;
  empty = [];
  unwrap = λ h. h;
  holds = λ s k. lookup k s;
  get_or_add = λ k made s. get_or_put k made s (lookup k s);
  stop = λ h s. without s (key_of h s s);
  empty_holds = λ k. lookup-empty k;
  kept = λ k made s h e. rw e refl;
  added = λ k made s e. get_or_put-added k made s e;
  stopped_first = λ h s first. without-first h s (key_of h s s) refl first;
  stopped_again = λ h s again. without-again h s (key_of h s s) refl again;
}
