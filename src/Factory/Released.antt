-- ===== src/Factory/Released.antt =====
-- The telemetry registrations of the creators that the factory makes.
use exportercreator.Prelude.{
  ℕ, suc, ◌≡◌, ◌≢◌, ◌⊎◌, ◌<◌, ◌≤◌, refl, ap, sym, ◌∙◌, arith, true, false, Bool-cases, inl, inr,
  List, [], ◌∷◌, ◌++◌, Option, none, some, if◌then◌else◌, ◌=?◌, nat_Eq,
}
use exportercreator.Router.{RoutingRule}
use exportercreator.Factory.{
  SharedComponents, SharedExporter, Process, new_process, get_or_add_creator, shared_wrapper, share,
  get_or_add_exporter_creator, shutdown_wrapper,
}
use exportercreator.Factory.Store.{
  Call, create, stop, after, after_all, times, times-add, GotOrAdded, get_or_add-GotOrAdded,
  GotOrAdded-cases, GotOrAdded-held, GotOrAdded-keeps, create_exporter-eq,
}
use exportercreator.Factory.Sound.{IsSound, new_process-IsSound, after-IsSound}

module _ (c : SharedComponents) where
  -- the store has a component for some configuration
  abbrev pub IsHeld : ℕ → c.Store → Type 0
  IsHeld r s = (k : ℕ) × (h : c.Handle) × (c.holds s k ≡ some h) × (c.unwrap h ≡ r)

  record IsSettled (next : ℕ) (s : c.Store) (released : List ℕ) : Type 0 where
    not_made : (r : ℕ) → next ≤ r → times r released ≡ 0
    in_use : (k : ℕ) (h : c.Handle) → c.holds s k ≡ some h → times (c.unwrap h) released ≡ 0
    each : (r : ℕ) → r < next → IsHeld r s ⊎ (times r released ≡ 1)

  abbrev Settled : Process c → Type 0
  Settled p = IsSettled p.next p.store p.released

  new_process-IsSettled : Settled (new_process c)
  new_process-IsSettled = record {
    not_made = λ r h. refl;
    in_use = λ k h e. refl;
    each = λ r h. absurd (omega arith);
  }

  -- `GetOrAdd` gave back an older component, so the new creator is surplus
  surplus-IsSettled :
      (next : ℕ) (s : c.Store) (released : List ℕ)
      → ((k : ℕ) (h : c.Handle) → c.holds s k ≡ some h → c.unwrap h < next)
      → IsSettled next s released
      → IsSettled (suc next) s (released ++ next ∷ [])
  surplus-IsSettled next s released bounded p = record {
    not_made =
        λ r le. let old = p.not_made r (omega arith) in ground (arith, times-add r next released);
    in_use = λ k h e.
        let old = p.in_use k h e in
        let below = bounded k h e in ground (arith, times-add (c.unwrap h) next released);
    each = λ r lt. elim (Bool-cases (r =? next)) [
      | inl same ↦
          let old = p.not_made r (ground arith) in inr (ground (arith, times-add r next released))
      | inr other ↦ elim (p.each r (ground arith)) [
        | inl held ↦ inl held
        | inr once ↦ inr (ground (arith, times-add r next released))
      ]
    ];
  }

  -- `GetOrAdd` took the new creator in
  added-IsSettled :
      {k next : ℕ} {s s' : c.Store} {h : c.Handle} (released : List ℕ)
      → GotOrAdded c k next s h s'
      → c.unwrap h ≡ next
      → IsSettled next s released
      → IsSettled (suc next) s' released
  added-IsSettled {k} {next} {s} {s'} {h} released g new p = record {
    not_made = λ r le. p.not_made r (omega arith);
    in_use = λ j h' e. elim (GotOrAdded-cases c g j h' e) [
      | inl (key, same) ↦ p.not_made (c.unwrap h') (omega (arith, new, ap c.unwrap same))
      | inr old ↦ p.in_use j h' old
    ];
    each = λ r lt. elim (Bool-cases (r =? next)) [
      | inl same ↦ inl (k, h, GotOrAdded-held c g, ground arith)
      | inr other ↦ elim (p.each r (ground arith)) [
        | inl (j, x, held, is_r) ↦ inl (j, x, GotOrAdded-keeps c g j x held, is_r)
        | inr once ↦ inr once
      ]
    ];
  }

  creating-IsSettled :
      (k : ℕ) (rules : List RoutingRule) (p : Process c)
      → IsSound c p
      → Settled p
      → Settled (get_or_add_creator c k rules p).1
  unfolding get_or_add_creator
  creating-IsSettled k rules p sound settled =
      let g = get_or_add-GotOrAdded c k p.next p.store in
      elim g.old_or_new [
        | inl old ↦
            let (h, s') = c.get_or_add k p.next p.store in
            let known = c.kept k p.next p.store h old in
            let same : s' ≡ p.store = ap (λ q. q.1) known in
            let below = sound.bounded k h old in
            let other : (c.unwrap h =? p.next) ≡ false = ground arith in
            rw (other, same) (surplus-IsSettled p.next p.store p.released sound.bounded settled)
        | inr (absent, new) ↦
            let (h, s') = c.get_or_add k p.next p.store in
            let same : (c.unwrap h =? p.next) ≡ true = ground arith in
            rw same (added-IsSettled p.released g new settled)
      ]

  wrapping-IsSettled :
      (sc : c.Handle) (o : Option (SharedExporter c)) (p : Process c)
      → Settled p
      → Settled (shared_wrapper c sc o p).1
  unfolding shared_wrapper
  wrapping-IsSettled sc none p s = record {
    not_made = s.not_made;
    in_use = s.in_use;
    each = s.each;
  }
  wrapping-IsSettled sc (some w) p s = s

  -- what the store holds after the first shutdown of a component
  stopped_view :
      (k j : ℕ) (o : Option c.Handle) (h : c.Handle)
      → (if k =? j then none else o) ≡ some h
      → (k ≢ j) × (o ≡ some h)
  stopped_view k j o h e = elim (Bool-cases (k =? j)) [
    | inl same ↦ let q : none ≡ some h = rw same at e in absurd (cc q)
    | inr other ↦ let q : o ≡ some h = rw other at e in (λ key. ground arith, q)
  ]

  stop-IsSettled :
      (w : SharedExporter c) (p : Process c)
      → IsSound c p
      → Settled p
      → Settled (shutdown_wrapper c w p)
  unfolding shutdown_wrapper
  stop-IsSettled w p sound s = elim (Bool-cases (c.stop w.handle p.store).0) [
    | inl first ↦
        let (k, held, now) = c.stopped_first w.handle p.store first in
        let me = c.unwrap w.handle in
        let store' = (c.stop w.handle p.store).1 in
        let open_ = s.in_use k w.handle held in
        let below = sound.bounded k w.handle held in
        rw first (record {
          not_made = λ r le. let old = s.not_made r le in ground (arith, times-add r me p.released);
          in_use = λ j h e.
              let (other, old) = stopped_view k j _ h (sym (now j) ∙ e) in
              let zero_ = s.in_use j h old in
              let apart =
                λ (u : me ≡ c.unwrap h). other (sound.injective k j w.handle h held old u) in
              let differs : c.unwrap h ≢ me = λ u. apart (sym u) in
              ground (arith, times-add (c.unwrap h) me p.released);
          each = λ r lt. elim (Bool-cases (r =? me)) [
            | inl same ↦
                let is_me : r ≡ me = ground arith in
                let zero_ : times r p.released ≡ 0 = ap (λ i. times i p.released) is_me ∙ open_ in
                inr (ground (arith, times-add r me p.released))
            | inr other ↦ elim (s.each r lt) [
              | inl (j, h, e, is_r) ↦
                  let apart : (k =? j) ≡ false = elim (Bool-cases (k =? j)) [
                    | inl key ↦
                        let q : k ≡ j = ground arith in
                        let one : some w.handle ≡ some h = sym held ∙ ap (c.holds p.store) q ∙ e in
                        let hs : w.handle ≡ h = cc one in
                        let u : me ≡ r = ap c.unwrap hs ∙ is_r in absurd (ground arith)
                    | inr key ↦ key
                  ] in
                  inl (j, h, now j ∙ rw apart e, is_r)
              | inr once ↦ inr (ground (arith, times-add r me p.released))
            ]
          ];
        })
    | inr again ↦
        let (gone, same) = c.stopped_again w.handle p.store again in
        rw (again, same) (record { not_made = s.not_made; in_use = s.in_use; each = s.each })
  ]

  after-IsSettled :
      (p : Process c) (call : Call c) → IsSound c p → Settled p → Settled (after c p call)
  unfolding get_or_add_exporter_creator share
  after-IsSettled p (create signal (some failure) k rules) sound s =
      rw (create_exporter-eq c signal (some failure) k rules p, after) s
  after-IsSettled p (create signal none k rules) sound s =
      rw (create_exporter-eq c signal none k rules p, after)
        (wrapping-IsSettled (get_or_add_creator c k rules p).0 _ (get_or_add_creator c k rules p).1
          (creating-IsSettled k rules p sound s))
  after-IsSettled p (stop w) sound s = stop-IsSettled w p sound s

  after_all-IsSettled :
      (p : Process c) (calls : List (Call c))
      → IsSound c p
      → Settled p
      → Settled (after_all c p calls)
  after_all-IsSettled p [] sound s = s
  after_all-IsSettled p (call ∷ calls) sound s =
      after_all-IsSettled (after c p call) calls (after-IsSound c p call sound)
        (after-IsSettled p call sound s)

  -- After any history of calls, every creator that was made is either the one that the store holds
  -- for a configuration, and its telemetry is registered, or the store does not hold it, and its
  -- telemetry has been shut down exactly once: none is left registered, and none is shut down twice.
  pub telemetry-released :
      (calls : List (Call c)) (r : ℕ)
      → let p = after_all c (new_process c) calls in
        r < p.next
        → (IsHeld r p.store × (times r p.released ≡ 0))
          ⊎ ((¬ IsHeld r p.store) × (times r p.released ≡ 1))
  telemetry-released calls r made =
      let p = after_all c (new_process c) calls in
      let s : Settled p =
        after_all-IsSettled (new_process c) calls (new_process-IsSound c) new_process-IsSettled in
      elim (s.each r made) [
        | inl (k, h, held, is_r) ↦
            inl ((k, h, held, is_r), ap (λ i. times i p.released) (sym is_r) ∙ s.in_use k h held)
        | inr once ↦ inr (
          λ (k, h, held, is_r).
              let open_ : times r p.released ≡ 0 =
                ap (λ i. times i p.released) (sym is_r) ∙ s.in_use k h held in
              absurd (omega arith),
          once,
        )
      ]
