-- ===== src/Creator/Found.antt =====
-- When `Start` finds its observers.
use exportercreator.Prelude.{
  ℕ, ◌≡◌, ◌≢◌, ◌⊎◌, ◌↔◌, refl, ap, sym, ◌∙◌, arith, true, false, Bool-cases, inl, inr, List, [],
  ◌∷◌, Option, none, some, All, ◌==◌,
}
use exportercreator.Prelude.Outcome.{ok}
use exportercreator.Prelude.GoMap.{GoMap, Distinct, lookup, insert, lookup-insert}
use exportercreator.Component.{ComponentId, id_Eq}
use exportercreator.Creator.{
  Extension, observer, other, match_extensions, match_observers, check_present, find_observers,
}
use exportercreator.Creator.Observers.{
  is_listed, observer_in, match_extensions-lookup, find_observers-ok,
}

-- The extension of a configured id is an observer.
abbrev pub IsObserver : GoMap ComponentId Extension → ComponentId → Type 0
IsObserver exts w = (obs : ℕ) × (lookup w exts ≡ some (observer obs))

observer_in-some :
    (o : Option Extension) → observer_in o ≢ none → (obs : ℕ) × (o ≡ some (observer obs))
observer_in-some none h = absurd (h refl)
observer_in-some (some (observer obs)) h = (obs, refl)
observer_in-some (some other) h = absurd (h refl)

insert-present :
    (w k : ComponentId) (obs : ℕ) (m : GoMap ComponentId ℕ)
    → ((w == k) ≡ true) ⊎ (lookup k m ≢ none)
    → lookup k (insert w obs m) ≢ none
insert-present w k obs m h = elim (Bool-cases (w == k)) [
  | inl same ↦ λ q. let r : some obs ≡ none = rw (lookup-insert, same) at q in absurd (cc r)
  | inr apart ↦ λ q.
      let r : lookup k m ≡ none = rw (lookup-insert, apart) at q in
      elim h [
        | inl same ↦ absurd (let c : true ≡ false = sym same ∙ apart in cc c)
        | inr there ↦ absurd (there r)
      ]
]

module _ (exts : GoMap ComponentId Extension) where
  match_observers_total :
      (ws : List ComponentId) (observers : GoMap ComponentId ℕ)
      → Distinct exts
      → All (IsObserver exts) ws
      → (found : GoMap ComponentId ℕ) × (match_observers ws exts observers ≡ ok found)
        × ((k : ComponentId)
            → (is_listed k ws ≡ true) ⊎ (lookup k observers ≢ none)
            → lookup k found ≢ none)
  unfolding match_observers
  match_observers_total [] observers d all =
      (observers, refl, λ k h. elim h [ inl listed ↦ absurd (cc listed) | inr there ↦ there ])
  match_observers_total (w ∷ ws) observers d ((obs, e), all) =
      let one : match_extensions w exts observers ≡ ok (insert w obs observers) =
        match_extensions-lookup w exts observers d ∙ rw e refl in
      let (found, run, present) = match_observers_total ws (insert w obs observers) d all in
      (
        found,
        rw one run,
        λ k h. elim (Bool-cases (w == k)) [
          | inl same ↦ present k (inr (insert-present w k obs observers (inl same)))
          | inr apart ↦ elim h [
            | inl listed ↦ present k (inl (rw apart at listed))
            | inr there ↦ present k (inr (insert-present w k obs observers (inr there)))
          ]
        ],
      )

  check_present_total :
      (ws : List ComponentId) (observers : GoMap ComponentId ℕ)
      → ((k : ComponentId) → is_listed k ws ≡ true → lookup k observers ≢ none)
      → check_present ws observers ≡ ok observers
  unfolding check_present
  check_present_total [] observers h = refl
  check_present_total (w ∷ ws) observers h =
      let me = (id_Eq.beq_iff w w).1 refl in
      let later_ = check_present_total ws observers (λ k listed. h k (ground arith)) in
      there (lookup w observers) refl (h w (ground arith)) later_
    where
      there :
          (o : Option ℕ)
          → lookup w observers ≡ o
          → lookup w observers ≢ none
          → check_present ws observers ≡ ok observers
          → check_present (w ∷ ws) observers ≡ ok observers
      there none e q rest = absurd (q e)
      there (some obs) e q rest = rw (e, check_present) rest

  All-listed :
      {P : ComponentId → Type 0} (ws : List ComponentId)
      → ((k : ComponentId) → is_listed k ws ≡ true → P k)
      → All P ws
  All-listed [] h = tt
  All-listed (w ∷ ws) h =
      let me = (id_Eq.beq_iff w w).1 refl in
      (h w (ground arith), All-listed ws (λ k listed. h k (ground arith)))

  listed-All :
      (P : ComponentId → Type 0) (ws : List ComponentId) (k : ComponentId)
      → All P ws
      → is_listed k ws ≡ true
      → P k
  listed-All P [] k all h = absurd (cc h)
  listed-All P (w ∷ ws) k (here, all) h = elim (Bool-cases (w == k)) [
    | inl same ↦ let q : w ≡ k = (id_Eq.beq_iff w k).0 same in rw q at here
    | inr apart ↦ listed-All P ws k all (rw apart at h)
  ]

  pub find_observers-IsObserver :
      (ws : List ComponentId) (found : GoMap ComponentId ℕ)
      → Distinct exts
      → find_observers ws exts ≡ ok found
      → All (IsObserver exts) ws
  find_observers-IsObserver ws found d h = All-listed ws (λ k listed.
      let (right, present) = (find_observers-ok exts ws found k d h).0 listed in
      observer_in-some (lookup k exts) (λ q. present (right ∙ q)))

  pub find_observers_total :
      (ws : List ComponentId)
      → Distinct exts
      → All (IsObserver exts) ws
      → (found : GoMap ComponentId ℕ) × (find_observers ws exts ≡ ok found)
  unfolding find_observers
  find_observers_total ws d all =
      let (found, run, present) = match_observers_total ws [] d all in
      (found, rw run (check_present_total ws found (λ k listed. present k (inl listed))))

  pub find_observers-lookup :
      (ws : List ComponentId) (found : GoMap ComponentId ℕ) (w : ComponentId) (obs : ℕ)
      → Distinct exts
      → find_observers ws exts ≡ ok found
      → (lookup w found ≡ some obs)
        ↔ (is_listed w ws ≡ true) × (lookup w exts ≡ some (observer obs))
  find_observers-lookup ws found w obs d h =
      let (on, off) = find_observers-ok exts ws found w d h in
      (
        λ e. elim (Bool-cases (is_listed w ws)) [
          | inl listed ↦
              let (x, ext) =
                listed-All (IsObserver exts) ws w (find_observers-IsObserver ws found d h) listed in
              let q : some obs ≡ some x = sym e ∙ (on listed).0 ∙ ap observer_in ext in
              let same : obs ≡ x = cc q in (listed, ext ∙ ap (λ i. some (observer i)) (sym same))
          | inr unlisted ↦ absurd (let q : some obs ≡ none = sym e ∙ off unlisted in cc q)
        ],
        λ (listed, ext). (on listed).0 ∙ ap observer_in ext,
      )
