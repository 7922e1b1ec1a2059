-- ===== src/Factory/Sound.antt =====
-- What the state of the factory keeps over every history of calls.
use exportercreator.Prelude.{
  ℕ, suc, ◌≡◌, ◌<◌, ◌≤◌, refl, ap, sym, ◌∙◌, arith, Bool, true, false, Bool-cases, inl, inr, List,
  [], ◌∷◌, Option, none, some, if◌then◌else◌, ◌=?◌, nat_Eq,
}
use exportercreator.Prelude.GoMap.{lookup, lookup-insert}
use exportercreator.Router.{RoutingRule}
use exportercreator.Factory.{
  SharedComponents, SharedExporter, Process, new_process, get_or_add_creator, shared_wrapper, share,
  get_or_add_exporter_creator, shutdown_wrapper,
}
use exportercreator.Factory.Store.{
  Call, create, stop, after, after_all, GotOrAdded, get_or_add-GotOrAdded, GotOrAdded-cases,
  GotOrAdded-held, Shares, create_exporter-eq,
}

module _ (c : SharedComponents) where
  -- Every component that is held is one that was made, under one configuration only, and the wrapper
  -- that its creator has is its own.
  pub record IsSound (p : Process c) : Type 0 where
    pub bounded : (k : ℕ) (h : c.Handle) → c.holds p.store k ≡ some h → c.unwrap h < p.next
    pub fresh : (r : ℕ) → p.next ≤ r → lookup r p.shared ≡ none
    pub matching :
        (k : ℕ) (h : c.Handle) (w : SharedExporter c)
        → c.holds p.store k ≡ some h
        → lookup (c.unwrap h) p.shared ≡ some w
        → (w.handle ≡ h) × (w.creator ≡ c.unwrap h)
    pub injective :
        (k j : ℕ) (h h' : c.Handle)
        → c.holds p.store k ≡ some h
        → c.holds p.store j ≡ some h'
        → c.unwrap h ≡ c.unwrap h'
        → k ≡ j

  pub new_process-IsSound : IsSound (new_process c)
  unfolding lookup
  new_process-IsSound = record {
    bounded = λ k h e. absurd (let q : none ≡ some h = sym (c.empty_holds k) ∙ e in cc q);
    fresh = λ r h. refl;
    matching = λ k h w e. absurd (let q : none ≡ some h = sym (c.empty_holds k) ∙ e in cc q);
    injective = λ k j h h' e. absurd (let q : none ≡ some h = sym (c.empty_holds k) ∙ e in cc q);
  }

  module _ {k : ℕ} {p : Process c} {h : c.Handle} {s' : c.Store} (sound : IsSound p)
      (g : GotOrAdded c k p.next p.store h s') where
    -- the component of the configuration is new, or it was there
    unwrap-le : c.unwrap h ≤ p.next
    unwrap-le = elim g.old_or_new [
      | inl old ↦ let b = sound.bounded k h old in omega arith
      | inr (absent, new) ↦ omega (arith, new)
    ]

    bounded' : (j : ℕ) (h' : c.Handle) → c.holds s' j ≡ some h' → c.unwrap h' < suc p.next
    bounded' j h' e = elim (GotOrAdded-cases c g j h' e) [
      | inl (key, same) ↦ omega (arith, ap c.unwrap same, unwrap-le)
      | inr old ↦ omega (arith, sound.bounded j h' old)
    ]

    matching' :
        (j : ℕ) (h' : c.Handle) (w : SharedExporter c)
        → c.holds s' j ≡ some h'
        → lookup (c.unwrap h') p.shared ≡ some w
        → (w.handle ≡ h') × (w.creator ≡ c.unwrap h')
    matching' j h' w e l = elim (GotOrAdded-cases c g j h' e) [
      | inl (key, same) ↦ elim g.old_or_new [
        | inl old ↦ sound.matching k h' w (old ∙ ap some same) l
        | inr (absent, new) ↦
            let q : none ≡ some w =
              sym (sound.fresh (c.unwrap h') (omega (arith, new, ap c.unwrap same))) ∙ l in
            absurd (cc q)
      ]
      | inr old ↦ sound.matching j h' w old l
    ]

    one_key :
        (j : ℕ) (h' : c.Handle) → c.holds p.store j ≡ some h' → c.unwrap h ≡ c.unwrap h' → k ≡ j
    one_key j h' e u = elim g.old_or_new [
      | inl old ↦ sound.injective k j h h' old e u
      | inr (absent, new) ↦ absurd (omega (arith, new, u, sound.bounded j h' e))
    ]

    injective' :
        (i j : ℕ) (x y : c.Handle)
        → c.holds s' i ≡ some x
        → c.holds s' j ≡ some y
        → c.unwrap x ≡ c.unwrap y
        → i ≡ j
    injective' i j x y ex ey u = elim (GotOrAdded-cases c g i x ex) [
      | inl (ki, hx) ↦ elim (GotOrAdded-cases c g j y ey) [
        | inl (kj, hy) ↦ sym ki ∙ kj
        | inr old ↦ sym ki ∙ one_key j y old (ap c.unwrap hx ∙ u)
      ]
      | inr old_x ↦ elim (GotOrAdded-cases c g j y ey) [
        | inl (kj, hy) ↦ sym (one_key i x old_x (ap c.unwrap hy ∙ sym u)) ∙ kj
        | inr old_y ↦ sound.injective i j x y old_x old_y u
      ]
    ]

  get_or_add_creator-IsSound :
      (k : ℕ) (rules : List RoutingRule) (p : Process c)
      → IsSound p
      → IsSound (get_or_add_creator c k rules p).1
  unfolding get_or_add_creator
  get_or_add_creator-IsSound k rules p sound =
      let g = get_or_add-GotOrAdded c k p.next p.store in
      record {
        bounded = bounded' sound g;
        fresh = λ r le. sound.fresh r (omega arith);
        matching = matching' sound g;
        injective = injective' sound g;
      }

  -- the wrapper that is put in where the creator has none
  inserted-IsSound :
      (k : ℕ) (sc : c.Handle) (p : Process c)
      → IsSound p
      → c.holds p.store k ≡ some sc
      → IsSound (shared_wrapper c sc none p).1
  unfolding shared_wrapper
  inserted-IsSound k sc p sound held =
      let w = (shared_wrapper c sc none p).0 in
      let found = λ (r : ℕ). lookup-insert (c.unwrap sc) r w p.shared in
      record {
        bounded = sound.bounded;
        fresh = λ r le.
            let below = sound.bounded k sc held in
            let other : (c.unwrap sc =? r) ≡ false = ground arith in
            found r ∙ rw other (sound.fresh r le);
        matching = λ j h w' e l. elim (Bool-cases (c.unwrap sc =? c.unwrap h)) [
          | inl same ↦
              let u : c.unwrap sc ≡ c.unwrap h = ground arith in
              let key = sound.injective k j sc h held e u in
              let one : some sc ≡ some h = sym held ∙ ap (c.holds p.store) key ∙ e in
              let is_w : some w ≡ some w' = rw same at (sym (found (c.unwrap h)) ∙ l) in
              let q : w ≡ w' = cc is_w in
              let handle : sc ≡ h = cc one in
              (
                sym (ap (λ (x : SharedExporter c). x.handle) q) ∙ handle,
                sym (ap (λ (x : SharedExporter c). x.creator) q) ∙ u,
              )
          | inr other ↦
              let old : lookup (c.unwrap h) p.shared ≡ some w' =
                rw other at (sym (found (c.unwrap h)) ∙ l) in
              sound.matching j h w' e old
        ];
        injective = sound.injective;
      }

  shared_wrapper-Shares :
      (k : ℕ) (sc : c.Handle) (o : Option (SharedExporter c)) (p : Process c)
      → IsSound p
      → c.holds p.store k ≡ some sc
      → lookup (c.unwrap sc) p.shared ≡ o
      → IsSound (shared_wrapper c sc o p).1
        × Shares c k (shared_wrapper c sc o p).0 (shared_wrapper c sc o p).1
  unfolding shared_wrapper
  shared_wrapper-Shares k sc (some w) p sound held l =
      let (handle, creator) = sound.matching k sc w held l in
      (
        sound,
        record {
          held = held ∙ ap some (sym handle);
          is_for = creator ∙ ap c.unwrap (sym handle);
          remembered = ap (λ h. lookup (c.unwrap h) p.shared) handle ∙ l;
        },
      )
  shared_wrapper-Shares k sc none p sound held l =
      let r = c.unwrap sc in
      let w = (shared_wrapper c sc none p).0 in
      let same : (r =? r) ≡ true = ground arith in
      (
        inserted-IsSound k sc p sound held,
        record {
          held = held;
          is_for = refl;
          remembered = lookup-insert r r w p.shared ∙ rw same refl;
        },
      )

  -- A call that succeeds leaves a sound state, in which the configuration has the wrapper.
  pub get_or_add-Shares :
      (k : ℕ) (rules : List RoutingRule) (p : Process c)
      → IsSound p
      → let (w, p') = share c (get_or_add_creator c k rules p) in IsSound p' × Shares c k w p'
  unfolding share get_or_add_creator
  get_or_add-Shares k rules p sound =
      let (sc, p') = get_or_add_creator c k rules p in
      shared_wrapper-Shares k sc _ p' (get_or_add_creator-IsSound k rules p sound)
        (GotOrAdded-held c (get_or_add-GotOrAdded c k p.next p.store)) refl

  stop-IsSound :
      (w : SharedExporter c) (p : Process c) → IsSound p → IsSound (shutdown_wrapper c w p)
  unfolding shutdown_wrapper
  stop-IsSound w p sound = elim (Bool-cases (c.stop w.handle p.store).0) [
    | inl first ↦
        let (k, held, now) = c.stopped_first w.handle p.store first in
        let old = λ (j : ℕ) (h : c.Handle) (e : c.holds (c.stop w.handle p.store).1 j ≡ some h).
          let q : (if k =? j then none else c.holds p.store j) ≡ some h = sym (now j) ∙ e in
          still_held (k =? j) (c.holds p.store j) h q in
        record {
          bounded = λ j h e. sound.bounded j h (old j h e);
          fresh = sound.fresh;
          matching = λ j h w' e l. sound.matching j h w' (old j h e) l;
          injective = λ i j x y ex ey u. sound.injective i j x y (old i x ex) (old j y ey) u;
        }
    | inr again ↦
        let (gone, same) = c.stopped_again w.handle p.store again in
        rw same (record {
          bounded = sound.bounded;
          fresh = sound.fresh;
          matching = sound.matching;
          injective = sound.injective;
        })
  ]
    where
      still_held :
          (b : Bool) (o : Option c.Handle) (h : c.Handle)
          → (if b then none else o) ≡ some h
          → o ≡ some h
      still_held true o h e = absurd (cc e)
      still_held false o h e = e

  pub after-IsSound : (p : Process c) (call : Call c) → IsSound p → IsSound (after c p call)
  unfolding get_or_add_exporter_creator
  after-IsSound p (create signal (some failure) k rules) sound =
      rw (create_exporter-eq c signal (some failure) k rules p, after) sound
  after-IsSound p (create signal none k rules) sound =
      rw (create_exporter-eq c signal none k rules p, after) (get_or_add-Shares k rules p sound).0
  after-IsSound p (stop w) sound = stop-IsSound w p sound

  pub after_all-IsSound :
      (p : Process c) (calls : List (Call c)) → IsSound p → IsSound (after_all c p calls)
  after_all-IsSound p [] sound = sound
  after_all-IsSound p (call ∷ calls) sound =
      after_all-IsSound (after c p call) calls (after-IsSound p call sound)
