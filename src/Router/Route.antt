-- ===== src/Router/Route.antt =====
-- `Route` returns the exporters of the registrations whose properties match every rule.
use exportercreator.Prelude.{
  ℕ, ◌<◌, ◌≡◌, ◌≢◌, ◌↔◌, ◌⊎◌, refl, sym, ap, ◌∙◌, true, false, List, [], ◌∷◌, ◌++◌, Option, some,
  Bool-cases, inl, inr, Text, text_Eq, ◌==◌, arith, length, ◌=?◌, word,
}
use mathlib.Core.Path.{subst}
use exportercreator.Prelude.GoMap.{GoMap, Distinct, lookup}
use exportercreator.Prelude.MultiMap.{slice_at}
use exportercreator.Prelude.Member.{
  In, first, later, In-append_left, In-append_right, In-append, In-if,
}
use exportercreator.Value.{Value}
use exportercreator.Router.{
  RoutingRule, RoutedExporter, TelemetryRouter, matches_all_rules, matched_of, matched_in, route,
}
use exportercreator.Router.History.{Live, select}
use exportercreator.Router.Matches.{Matches, matches_all_rules_iff}
use exportercreator.Router.Refines.{Represents}

-- The entries of a map are what its lookups find.
In-lookup :
    (id : Text) (re : RoutedExporter) (exps : List RoutedExporter)
    (m : GoMap Text (List RoutedExporter))
    → Distinct m
    → In (id, exps) m
    → lookup id m ≡ some exps
unfolding lookup
In-lookup id re exps [] d h = elim h [ ]
In-lookup id re exps ((j, w) ∷ m) d (first e) = ground (arith, text_Eq.beq_iff j id)
In-lookup id re exps ((j, w) ∷ m) d (later h) =
    ground (arith, text_Eq.beq_iff j id, In-lookup id re exps m d.1 h, d.0)

slice-In :
    (id : Text) (re : RoutedExporter) (m : GoMap Text (List RoutedExporter))
    → In re (slice_at (lookup id m))
    → (exps : List RoutedExporter) × In (id, exps) m × In re exps
unfolding lookup
slice-In id re [] h = elim h [ ]
slice-In id re ((j, w) ∷ m) h = elim (Bool-cases (j == id)) [
  | inl same ↦ (w, first (let q : j ≡ id = (text_Eq.beq_iff j id).0 same in cc), rw same at h)
  | inr other ↦
      let (exps, at, within) = slice-In id re m (rw other at h) in (exps, later at, within)
]

pub select-In :
    (id : Text) (re : RoutedExporter) (live : Live) → In re (select id live) ↔ In (id, re) live
select-In id re [] = (λ h. elim h [ ], λ h. elim h [ ])
select-In id re ((j, x) ∷ live) =
    let ih = select-In id re live in
    let test = In-if (j == id) x (select id live) in
    (
      λ h. elim (test.0 h) [
        | inl (same, e) ↦ first (let q : j ≡ id = (text_Eq.beq_iff j id).0 same in cc)
        | inr l ↦ later (ih.0 l)
      ],
      λ h. test.1 (back h ih.1),
    )
  where
    back :
        In (id, re) ((j, x) ∷ live)
        → (In (id, re) live → In re (select id live))
        → ((j == id) ≡ true) × (re ≡ x) ⊎ In re (select id live)
    back (first e) ih = inl ((text_Eq.beq_iff j id).1 cc, cc)
    back (later h) ih = inr (ih h)

module _ (composite : Value → Text) (attribute : Text → Option Text)
    (rules : List RoutingRule) where
  -- A registration of the list that matches, with the component that it gives.
  abbrev Chosen : ℕ → List RoutedExporter → Type 0
  Chosen c exps =
      (re : RoutedExporter) × In re exps
      × (re.exporter ≡ c)
      × Matches composite attribute rules re.properties

  matched_of_iff :
      (c : ℕ) (exps : List RoutedExporter)
      → In c (matched_of composite attribute rules exps) ↔ Chosen c exps
  unfolding matched_of
  matched_of_iff c [] = (λ h. elim h [ ], λ (re, h, e, m). elim h [ ])
  matched_of_iff c (x ∷ exps) =
      let decides = matches_all_rules_iff composite attribute rules x.properties in
      let ih = matched_of_iff c exps in
      let test =
        In-if (matches_all_rules composite attribute rules x.properties) x.exporter
          (matched_of composite attribute rules exps) in
      (
        λ h. elim (test.0 h) [
          | inl (m, e) ↦ (x, first refl, sym e, decides.0 m)
          | inr l ↦ let (re, at, e, m) = ih.0 l in (re, later at, e, m)
        ],
        λ (re, at, e, m). test.1 (front x exps re at e m ih.1),
      )
    where
      front :
          (x : RoutedExporter) (exps : List RoutedExporter) (re : RoutedExporter)
          → In re (x ∷ exps)
          → re.exporter ≡ c
          → Matches composite attribute rules re.properties
          → (Chosen c exps → In c (matched_of composite attribute rules exps))
          → ((matches_all_rules composite attribute rules x.properties ≡ true) × (c ≡ x.exporter))
            ⊎ In c (matched_of composite attribute rules exps)
      front x exps re (first q) e m ih = inl (
        (matches_all_rules_iff composite attribute rules x.properties).1
            (subst (λ y. Matches composite attribute rules y.properties) q m),
        sym e ∙ ap (λ y. y.exporter) q,
      )
      front x exps re (later h) e m ih = inr (ih (re, h, e, m))

  matched_in_iff :
      (c : ℕ) (m : GoMap Text (List RoutedExporter))
      → In c (matched_in composite attribute rules m)
        ↔ ((id : Text) × (exps : List RoutedExporter) × In (id, exps) m × Chosen c exps)
  unfolding matched_in
  matched_in_iff c [] = (λ h. elim h [ ], λ (id, exps, h, k). elim h [ ])
  matched_in_iff c ((j, w) ∷ m) =
      let here_iff = matched_of_iff c w in
      let ih = matched_in_iff c m in
      (
        λ h. elim (In-append (matched_of composite attribute rules w) h) [
          | inl l ↦ (j, w, first refl, here_iff.0 l)
          | inr l ↦ let (id, exps, at, k) = ih.0 l in (id, exps, later at, k)
        ],
        λ (id, exps, at, k). back id exps at k ih.1,
      )
    where
      back :
          (id : Text) (exps : List RoutedExporter)
          → In (id, exps) ((j, w) ∷ m)
          → Chosen c exps
          → ((id : Text) × (exps : List RoutedExporter) × In (id, exps) m × Chosen c exps
              → In c (matched_in composite attribute rules m))
          → In c (matched_of composite attribute rules w ++ matched_in composite attribute rules m)
      back id exps (first q) k ih =
          In-append_left _ ((matched_of_iff c w).1 (subst (λ y. Chosen c y.1) q k))
      back id exps (later h) k ih =
          In-append_right (matched_of composite attribute rules w) (ih (id, exps, h, k))

length-In : {A : Type 0} {x : A} (xs : List A) → In x xs → length xs ≢ 0
length-In [] h = elim h [ ]
length-In (y ∷ xs) h = omega arith

no_length : {A : Type 0} (xs : List A) → (length xs =? 0) ≡ true → xs ≡ []
no_length [] h = refl
no_length (x ∷ xs) h = absurd (ground arith)

module _ (composite : Value → Text) (attribute : Text → Option Text) where
  -- Where a component comes from: a registration in force whose properties match.
  abbrev pub RoutedTo : TelemetryRouter → Live → ℕ → Type 0
  RoutedTo r live c =
      (id : Text) × (re : RoutedExporter) × In (id, re) live
      × (re.exporter ≡ c)
      × Matches composite attribute r.rules re.properties

module _ (composite : Value → Text) (attribute : Text → Option Text) (r : TelemetryRouter)
    (live : Live) (p : Represents r live) (small : length live < word) where
  route_open :
      (length r.rules =? 0) ≡ false
      → (r.count =? 0) ≡ false
      → route composite attribute r ≡ matched_in composite attribute r.rules r.exporters
  unfolding route
  route_open some_rules some_exporters = rw (some_rules, some_exporters)

  route_closed :
      ((length r.rules =? 0) ≡ true) ⊎ ((r.count =? 0) ≡ true) → route composite attribute r ≡ []
  unfolding route
  route_closed (inl no_rules) = rw no_rules
  route_closed (inr no_exporters) = elim (Bool-cases (length r.rules =? 0)) [
    | inl no_rules ↦ rw no_rules
    | inr some_rules ↦ rw (some_rules, no_exporters)
  ]

  registered_at :
      (c : ℕ)
      → ((id : Text) × (exps : List RoutedExporter) × In (id, exps) r.exporters
          × Chosen composite attribute r.rules c exps)
      → RoutedTo composite attribute r live c
  registered_at c (id, exps, at, (re, within, e, m)) =
      let found = In-lookup id re exps r.exporters p.distinct at in
      let held : exps ≡ select id live = sym (ap slice_at found) ∙ p.holds id in
      (id, re, (select-In id re live).0 (subst (In re) held within), e, m)

  looked_up :
      (c : ℕ)
      → RoutedTo composite attribute r live c
      → (id : Text) × (exps : List RoutedExporter) × In (id, exps) r.exporters
        × Chosen composite attribute r.rules c exps
  looked_up c (id, re, at, e, m) =
      let within = subst (In re) (sym (p.holds id)) ((select-In id re live).1 at) in
      let (exps, entry, inside) = slice-In id re r.exporters within in
      (id, exps, entry, (re, inside, e, m))

  counted_zero : (r.count =? 0) ≡ true → length live ≡ 0
  counted_zero h = let q : r.count ≡ 0 = ground arith in omega (arith, p.counted)

  -- With fewer than 2^64 registrations in force, `Route` returns a component exactly when it is the
  -- component of a registration in force whose properties match all the rules, of which there is
  -- one at least. The order in which the map is visited makes no difference to this.
  pub route_iff :
      (c : ℕ) → In c (route composite attribute r) ↔ RoutedTo composite attribute r live c
  route_iff c = elim (Bool-cases (length r.rules =? 0)) [
    | inl no_rules ↦ (
      λ h. elim (subst (In c) (route_closed (inl no_rules)) h) [ ],
      λ (id, re, at, e, m). absurd (m.0 (no_length r.rules no_rules)),
    )
    | inr some_rules ↦ elim (Bool-cases (r.count =? 0)) [
      | inl no_exporters ↦ (
        λ h. elim (subst (In c) (route_closed (inr no_exporters)) h) [ ],
        λ (id, re, at, e, m). absurd (length-In live at (counted_zero no_exporters)),
      )
      | inr some_exporters ↦
          let opened = route_open some_rules some_exporters in
          let found = matched_in_iff composite attribute r.rules c r.exporters in
          (
            λ h. registered_at c (found.0 (subst (In c) opened h)),
            λ h. subst (In c) (sym opened) (found.1 (looked_up c h)),
          )
    ]
  ]
