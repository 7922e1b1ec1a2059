-- ===== src/Creator/Observers.antt =====
-- Which observers `Start` finds.
use exportercreator.Prelude.{
  ℕ, ◌≡◌, ◌≢◌, ◌⊎◌, refl, ap, sym, ◌∙◌, arith, Bool, true, false, ◌||◌, Bool-cases, inl, inr, List,
  [], ◌∷◌, Option, none, some, ◌==◌,
}
use exportercreator.Prelude.Outcome.{Outcome, ok, err, >>=-eq-ok}
use exportercreator.Prelude.GoMap.{GoMap, Distinct, lookup, insert, lookup-insert, insert-Distinct}
use exportercreator.Component.{ComponentId, id_Eq}
use exportercreator.Creator.{
  Extension, observer, other, StartError, not_an_observer, not_found, match_extensions,
  match_observers, check_present, find_observers,
}

abbrev pub is_listed : ComponentId → List ComponentId → Bool
is_listed k [] = false
is_listed k (w ∷ ws) = w == k || is_listed k ws

-- what the inner loop comes to for an extension under its id
abbrev matched :
    ComponentId → Option Extension → GoMap ComponentId ℕ → Outcome StartError (GoMap ComponentId ℕ)
matched w none observers = ok observers
matched w (some (observer obs)) observers = ok (insert w obs observers)
matched w (some other) observers = err (not_an_observer w)

match_extensions-absent :
    (w : ComponentId) (exts : GoMap ComponentId Extension) (observers : GoMap ComponentId ℕ)
    → lookup w exts ≡ none
    → match_extensions w exts observers ≡ ok observers
unfolding match_extensions lookup
match_extensions-absent w [] observers h = refl
match_extensions-absent w ((cid, ext) ∷ exts) observers h = elim (Bool-cases (cid == w)) [
  | inl same ↦ absurd (let q : some ext ≡ none = rw same at h in cc q)
  | inr different ↦ rw different (match_extensions-absent w exts observers (rw different at h))
]

pub match_extensions-lookup :
    (w : ComponentId) (exts : GoMap ComponentId Extension) (observers : GoMap ComponentId ℕ)
    → Distinct exts
    → match_extensions w exts observers ≡ matched w (lookup w exts) observers
unfolding match_extensions lookup
match_extensions-lookup w [] observers d = refl
match_extensions-lookup w ((cid, observer obs) ∷ exts) observers d = elim (Bool-cases (cid == w)) [
  | inl same ↦
      let q : cid ≡ w = (id_Eq.beq_iff cid w).0 same in
      rw same (
        match_extensions-absent w exts (insert w obs observers)
          (ap (λ k. lookup k exts) (sym q) ∙ d.0))
  | inr different ↦ rw different (match_extensions-lookup w exts observers d.1)
]
match_extensions-lookup w ((cid, other) ∷ exts) observers d = elim (Bool-cases (cid == w)) [
  | inl same ↦ rw same
  | inr different ↦ rw different (match_extensions-lookup w exts observers d.1)
]

-- the observer behind an extension
abbrev pub observer_in : Option Extension → Option ℕ
observer_in none = none
observer_in (some (observer obs)) = some obs
observer_in (some other) = none

module _ (exts : GoMap ComponentId Extension) where
  -- What has been found so far is right.
  abbrev IsSound : GoMap ComponentId ℕ → Type 0
  IsSound observers =
      Distinct observers
      × ((k : ComponentId)
          → (lookup k observers ≡ none) ⊎ (lookup k observers ≡ observer_in (lookup k exts)))

  insert-IsSound :
      (w : ComponentId) (obs : ℕ) (observers : GoMap ComponentId ℕ)
      → lookup w exts ≡ some (observer obs)
      → IsSound observers
      → IsSound (insert w obs observers)
  insert-IsSound w obs observers e p = (
    insert-Distinct w obs observers p.0,
    λ k. elim (Bool-cases (w == k)) [
      | inl same ↦
          let q : w ≡ k = (id_Eq.beq_iff w k).0 same in
          inr
            (rw (lookup-insert, same) (sym (ap observer_in (ap (λ i. lookup i exts) (sym q) ∙ e))))
      | inr different ↦ rw (lookup-insert, different) (p.1 k)
    ],
  )

  matched-IsSound :
      (w : ComponentId) (o : Option Extension) (observers found : GoMap ComponentId ℕ)
      → lookup w exts ≡ o
      → matched w o observers ≡ ok found
      → IsSound observers
      → IsSound found × ((k : ComponentId) → (w == k) ≡ false → lookup k found ≡ lookup k observers)
  matched-IsSound w none observers found e h p =
      let q : observers ≡ found = cc h in rw (sym q) (p, λ k different. refl)
  matched-IsSound w (some (observer obs)) observers found e h p =
      let q : insert w obs observers ≡ found = cc h in
      rw (sym q) (insert-IsSound w obs observers e p, λ k different. rw (lookup-insert, different))
  matched-IsSound w (some other) observers found e h p = absurd cc

  match_observers-IsSound :
      (ws : List ComponentId) (observers found : GoMap ComponentId ℕ)
      → Distinct exts
      → match_observers ws exts observers ≡ ok found
      → IsSound observers
      → IsSound found
        × ((k : ComponentId) → is_listed k ws ≡ false → lookup k found ≡ lookup k observers)
  unfolding match_observers
  match_observers-IsSound [] observers found d h p =
      let q : observers ≡ found = cc h in rw (sym q) (p, λ k unlisted. refl)
  match_observers-IsSound (w ∷ ws) observers found d h p =
      let (next, first, rest) = >>=-eq-ok (match_extensions w exts observers) _ h in
      let (sound, others) =
        matched-IsSound w (lookup w exts) observers next refl
          (sym (match_extensions-lookup w exts observers d) ∙ first) p in
      let (sound', others') = match_observers-IsSound ws next found d rest sound in
      (sound', λ k unlisted. others' k (ground arith) ∙ others k (ground arith))

  pub check_present-ok :
      (ws : List ComponentId) (observers found : GoMap ComponentId ℕ)
      → check_present ws observers ≡ ok found
      → (observers ≡ found)
        × ((k : ComponentId) → is_listed k ws ≡ true → lookup k observers ≢ none)
  unfolding check_present
  check_present-ok [] observers found h = (cc h, λ k listed. absurd cc)
  check_present-ok (w ∷ ws) observers found h =
      from (lookup w observers) refl h (λ rest. check_present-ok ws observers found rest)
    where
      from :
          (o : Option ℕ)
          → lookup w observers ≡ o
          → (elim o as (λ x. Outcome StartError (GoMap ComponentId ℕ)) [
            | none ↦ err (not_found w)
            | some obs ↦ check_present ws observers
          ])
            ≡ ok found
          → (check_present ws observers ≡ ok found
              → (observers ≡ found)
                × ((k : ComponentId) → is_listed k ws ≡ true → lookup k observers ≢ none))
          → (observers ≡ found)
            × ((k : ComponentId) → is_listed k (w ∷ ws) ≡ true → lookup k observers ≢ none)
      from none e q ih = absurd cc
      from (some obs) e q ih =
          let (same, present) = ih q in
          (
            same,
            λ k listed. elim (Bool-cases (w == k)) [
              | inl here ↦
                  let i : w ≡ k = (id_Eq.beq_iff w k).0 here in
                  let there : lookup k observers ≡ some obs =
                    ap (λ j. lookup j observers) (sym i) ∙ e in
                  λ missing. absurd (let q' : some obs ≡ none = sym there ∙ missing in cc q')
              | inr different ↦ present k (rw different at listed)
            ],
          )

  -- When `Start` finds the observers among extensions with distinct ids, each configured id has the
  -- observer that the extension of that id is, and no other id has one.
  pub find_observers-ok :
      (ws : List ComponentId) (found : GoMap ComponentId ℕ) (k : ComponentId)
      → Distinct exts
      → find_observers ws exts ≡ ok found
      → (is_listed k ws ≡ true
          → (lookup k found ≡ observer_in (lookup k exts)) × (lookup k found ≢ none))
        × (is_listed k ws ≡ false → lookup k found ≡ none)
  unfolding find_observers lookup
  find_observers-ok ws found k d h =
      let (observers, first, rest) = >>=-eq-ok (match_observers ws exts []) _ h in
      let (same, present) = check_present-ok ws observers found rest in
      let (sound, others) = match_observers-IsSound ws [] observers d first (tt, λ j. inl refl) in
      rw (sym same) (
        λ listed. (
          elim (sound.1 k) [ inl missing ↦ absurd (present k listed missing) | inr right ↦ right ],
          present k listed,
        ),
        λ unlisted. others k unlisted,
      )

  pub find_observers-Distinct :
      (ws : List ComponentId) (found : GoMap ComponentId ℕ)
      → Distinct exts
      → find_observers ws exts ≡ ok found
      → Distinct found
  unfolding find_observers lookup
  find_observers-Distinct ws found d h =
      let (observers, first, rest) = >>=-eq-ok (match_observers ws exts []) _ h in
      let (same, present) = check_present-ok ws observers found rest in
      let (sound, others) = match_observers-IsSound ws [] observers d first (tt, λ j. inl refl) in
      rw (sym same) sound.0
