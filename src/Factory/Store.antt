-- ===== src/Factory/Store.antt =====
-- What the component store does for a call of the factory, and the histories of such calls.
use exportercreator.Prelude.{
  ℕ, ◌+◌, ◌≡◌, ◌⊎◌, refl, ap, sym, ◌∙◌, arith, true, Bool-cases, inl, inr, List, [], ◌∷◌, ◌++◌,
  Option, none, some, if◌then◌else◌, ◌=?◌, Text, nat_Eq, sum_by, sum_by-append,
}
use exportercreator.Prelude.GoMap.{lookup}
use exportercreator.Component.{Signal, logs, metrics, traces}
use exportercreator.Router.{RoutingRule}
use exportercreator.Factory.{
  SharedComponents, SharedExporter, Process, get_or_add_exporter_creator, create_exporter,
  shutdown_wrapper,
}

-- A call that a pipeline makes: for its exporter, or to shut down the one that it has.
pub data Call (c : SharedComponents) : Type 0 where
  create : Signal → Option Text → ℕ → List RoutingRule → Call c
  stop : SharedExporter c → Call c

-- how often a number is in a list
abbrev pub times : ℕ → List ℕ → ℕ
times r = sum_by (λ x. if r =? x then 1 else 0)

pub times-add :
    (r x : ℕ) (xs : List ℕ) → times r (xs ++ x ∷ []) ≡ times r xs + (if r =? x then 1 else 0)
times-add r x xs = sum_by-append (λ y. if r =? y then 1 else 0) xs (x ∷ []) ∙ omega arith

pub some_or_none : {A : Type 0} (o : Option A) → ((a : A) × (o ≡ some a)) ⊎ (o ≡ none)
some_or_none (some a) = inl (a, refl)
some_or_none none = inr refl

module _ (c : SharedComponents) where
  abbrev pub after : Process c → Call c → Process c
  after p (create signal failure cfg rules) = (create_exporter c signal failure cfg rules p).1
  after p (stop w) = shutdown_wrapper c w p

  abbrev pub after_all : Process c → List (Call c) → Process c
  after_all p [] = p
  after_all p (call ∷ calls) = after_all (after p call) calls

  -- What `GetOrAdd` has done: the configuration has the component behind the handle, which is new or
  -- was there.
  pub record GotOrAdded (k made : ℕ) (s : c.Store) (h : c.Handle) (s' : c.Store) : Type 0 where
    pub now : (j : ℕ) → c.holds s' j ≡ (if k =? j then some h else c.holds s j)
    pub old_or_new : (c.holds s k ≡ some h) ⊎ ((c.holds s k ≡ none) × (c.unwrap h ≡ made))

  same_view :
      (k j : ℕ) (s : c.Store) (h : c.Handle)
      → c.holds s k ≡ some h
      → c.holds s j ≡ (if k =? j then some h else c.holds s j)
  same_view k j s h e = elim (Bool-cases (k =? j)) [
    | inl same ↦ let q : k ≡ j = ground arith in rw same (ap (c.holds s) (sym q) ∙ e)
    | inr other ↦ rw other refl
  ]

  pub get_or_add-GotOrAdded :
      (k made : ℕ) (s : c.Store)
      → GotOrAdded k made s (c.get_or_add k made s).0 (c.get_or_add k made s).1
  get_or_add-GotOrAdded k made s = elim (some_or_none (c.holds s k)) [
    | inl (h, e) ↦
        rw (c.kept k made s h e) (record { now = λ j. same_view k j s h e; old_or_new = inl e })
    | inr e ↦
        let (fresh, now) = c.added k made s e in record { now = now; old_or_new = inr (e, fresh) }
  ]

  -- The wrapper of a configuration: the store holds its component, and the creator its wrapper.
  pub record Shares (k : ℕ) (w : SharedExporter c) (p : Process c) : Type 0 where
    pub held : c.holds p.store k ≡ some w.handle
    pub is_for : w.creator ≡ c.unwrap w.handle
    pub remembered : lookup (c.unwrap w.handle) p.shared ≡ some w

  pub create_exporter-eq :
      (signal : Signal) (failure : Option Text) (k : ℕ) (rules : List RoutingRule) (p : Process c)
      → create_exporter c signal failure k rules p ≡ get_or_add_exporter_creator c failure k rules p
  unfolding create_exporter
  create_exporter-eq logs failure k rules p = refl
  create_exporter-eq metrics failure k rules p = refl
  create_exporter-eq traces failure k rules p = refl

  pub GotOrAdded-cases :
      {k made : ℕ} {s s' : c.Store} {h : c.Handle}
      → GotOrAdded k made s h s'
      → (j : ℕ) (h' : c.Handle) → c.holds s' j ≡ some h'
      → ((k ≡ j) × (h ≡ h')) ⊎ (c.holds s j ≡ some h')
  GotOrAdded-cases {k} {made} {s} {s'} {h} g j h' e = elim (Bool-cases (k =? j)) [
    | inl same ↦
        let q : some h ≡ some h' = rw same at (sym (g.now j) ∙ e) in inl (ground arith, cc q)
    | inr other ↦ let q : c.holds s j ≡ some h' = rw other at (sym (g.now j) ∙ e) in inr q
  ]

  pub GotOrAdded-held :
      {k made : ℕ} {s s' : c.Store} {h : c.Handle}
      → GotOrAdded k made s h s'
      → c.holds s' k ≡ some h
  GotOrAdded-held {k} g = let same : (k =? k) ≡ true = ground arith in rw same at (g.now k)

  pub GotOrAdded-keeps :
      {j made : ℕ} {s s' : c.Store} {h : c.Handle}
      → GotOrAdded j made s h s'
      → (k : ℕ) (w : c.Handle) → c.holds s k ≡ some w
      → c.holds s' k ≡ some w
  GotOrAdded-keeps {j} {made} {s} {s'} {h} g k w held = elim (Bool-cases (j =? k)) [
    | inl same ↦
        let q : j ≡ k = ground arith in
        elim g.old_or_new [
          | inl old ↦
              ap (c.holds s') (sym q) ∙ GotOrAdded-held g ∙ sym old ∙ ap (c.holds s) q ∙ held
          | inr (absent, new) ↦
              let r : none ≡ some w = sym absent ∙ ap (c.holds s) q ∙ held in absurd (cc r)
        ]
    | inr other ↦ g.now k ∙ rw other held
  ]
