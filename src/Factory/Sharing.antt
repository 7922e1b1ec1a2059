-- ===== src/Factory/Sharing.antt =====
-- Pipelines of one configuration get one wrapper, until it is shut down.
use exportercreator.Prelude.{
  ℕ, ◌≡◌, ◌≢◌, refl, ap, sym, ◌∙◌, arith, false, Bool-cases, inl, inr, List, [], ◌∷◌, Option, none,
  some, All, ◌=?◌, nat_Eq,
}
use exportercreator.Prelude.Outcome.{ok}
use exportercreator.Prelude.GoMap.{lookup, lookup-insert}
use exportercreator.Component.{Signal}
use exportercreator.Router.{RoutingRule}
use exportercreator.Factory.{
  SharedComponents, SharedExporter, Process, new_process, get_or_add_creator, shared_wrapper, share,
  get_or_add_exporter_creator, create_exporter, shutdown_wrapper,
}
use exportercreator.Factory.Store.{
  Call, create, stop, after, after_all, get_or_add-GotOrAdded, GotOrAdded-keeps, Shares,
  create_exporter-eq,
}
use exportercreator.Factory.Sound.{new_process-IsSound, get_or_add-Shares, after_all-IsSound}

module _ (c : SharedComponents) where
  -- a call that does not shut the shared component of `w` down
  abbrev pub SparesIt : SharedExporter c → Call c → Type 0
  SparesIt w (create signal failure k rules) = Unit {0}
  SparesIt w (stop w') = w'.handle ≢ w.handle

  shared_wrapper-keeps :
      (sc : c.Handle) (p : Process c) (r : ℕ) (w : SharedExporter c) (o : Option (SharedExporter c))
      → lookup (c.unwrap sc) p.shared ≡ o
      → lookup r p.shared ≡ some w
      → (lookup r (shared_wrapper c sc o p).1.shared ≡ some w)
        × ((shared_wrapper c sc o p).1.store ≡ p.store)
  unfolding shared_wrapper
  shared_wrapper-keeps sc p r w (some w') is_o l = (l, refl)
  shared_wrapper-keeps sc p r w none is_o l =
      let other : (c.unwrap sc =? r) ≡ false = elim (Bool-cases (c.unwrap sc =? r)) [
        | inl same ↦
            let q : c.unwrap sc ≡ r = ground arith in
            let e : none ≡ some w = sym is_o ∙ ap (λ i. lookup i p.shared) q ∙ l in absurd (cc e)
        | inr other ↦ other
      ] in
      (lookup-insert (c.unwrap sc) r _ p.shared ∙ rw other l, refl)

  module _ (k : ℕ) (w : SharedExporter c) where
    create-Shares :
        (j : ℕ) (rules : List RoutingRule) (p : Process c)
        → Shares c k w p
        → Shares c k w (share c (get_or_add_creator c j rules p)).1
    unfolding share get_or_add_creator
    create-Shares j rules p s =
        let (sc, p') = get_or_add_creator c j rules p in
        let (remembered, same_store) =
          shared_wrapper-keeps sc p' (c.unwrap w.handle) w _ refl s.remembered in
        record {
          held =
              ap (λ store. c.holds store k) same_store
              ∙ GotOrAdded-keeps c (get_or_add-GotOrAdded c j p.next p.store) k w.handle s.held;
          is_for = s.is_for;
          remembered = remembered;
        }

    stop-Shares :
        (w' : SharedExporter c) (p : Process c)
        → w'.handle ≢ w.handle
        → Shares c k w p
        → Shares c k w (shutdown_wrapper c w' p)
    unfolding shutdown_wrapper
    stop-Shares w' p spared s = elim (Bool-cases (c.stop w'.handle p.store).0) [
      | inl first ↦
          let (j, held, now) = c.stopped_first w'.handle p.store first in
          let other : (j =? k) ≡ false = elim (Bool-cases (j =? k)) [
            | inl same ↦
                let q : j ≡ k = ground arith in
                let e : some w'.handle ≡ some w.handle =
                  sym held ∙ ap (c.holds p.store) q ∙ s.held in
                absurd (spared (cc e))
            | inr other ↦ other
          ] in
          record { held = now k ∙ rw other s.held; is_for = s.is_for; remembered = s.remembered }
      | inr again ↦
          let (gone, same) = c.stopped_again w'.handle p.store again in
          record {
            held = ap (λ store. c.holds store k) same ∙ s.held;
            is_for = s.is_for;
            remembered = s.remembered;
          }
    ]

    after-Shares :
        (p : Process c) (call : Call c)
        → SparesIt w call
        → Shares c k w p
        → Shares c k w (after c p call)
    unfolding get_or_add_exporter_creator
    after-Shares p (create signal (some failure) j rules) spared s =
        rw (create_exporter-eq c signal (some failure) j rules p, after) s
    after-Shares p (create signal none j rules) spared s =
        rw (create_exporter-eq c signal none j rules p, after) (create-Shares j rules p s)
    after-Shares p (stop w') spared s = stop-Shares w' p spared s

    after_all-Shares :
        (p : Process c) (calls : List (Call c))
        → All (SparesIt w) calls
        → Shares c k w p
        → Shares c k w (after_all c p calls)
    after_all-Shares p [] spared s = s
    after_all-Shares p (call ∷ calls) (spared, rest) s =
        after_all-Shares (after c p call) calls rest (after-Shares p call spared s)

    -- A configuration that has a wrapper gets it again.
    create-again :
        (rules : List RoutingRule) (p : Process c)
        → Shares c k w p
        → (share c (get_or_add_creator c k rules p)).0 ≡ w
    unfolding share get_or_add_creator shared_wrapper
    create-again rules p s =
        let known = c.kept k p.next p.store w.handle s.held in rw (known, s.remembered)

  -- After any history of calls: when a pipeline has got a wrapper for its configuration, every
  -- pipeline of that configuration gets the same one, for whatever signal and after whatever other
  -- calls, failing ones included, as long as its shared component is not shut down; and the wrapper
  -- forwards to the creator that this component wraps.
  pub create_exporter-shared :
      (before later : List (Call c)) (signal signal' : Signal) (k : ℕ)
      (rules rules' : List RoutingRule) (w : SharedExporter c)
      → let (made, p) =
          create_exporter c signal none k rules (after_all c (new_process c) before) in
        made ≡ ok w
        → All (SparesIt w) later
        → ((create_exporter c signal' none k rules' (after_all c p later)).0 ≡ ok w)
          × (w.creator ≡ c.unwrap w.handle)
  unfolding get_or_add_exporter_creator
  create_exporter-shared before later signal signal' k rules rules' w made spared =
      let p = after_all c (new_process c) before in
      let one = create_exporter-eq c signal none k rules p in
      let (w', p') = share c (get_or_add_creator c k rules p) in
      let is_w : w' ≡ w = let q : ok w' ≡ ok w = sym (ap (λ r. r.0) one) ∙ made in cc q in
      let (sound, shares) =
        get_or_add-Shares c k rules p
          (after_all-IsSound c (new_process c) before (new_process-IsSound c)) in
      let first : Shares c k w p' = rw is_w at shares in
      let s = after_all-Shares k w p' later spared first in
      let two = create_exporter-eq c signal' none k rules' (after_all c p' later) in
      (
        ap (λ q. (create_exporter c signal' none k rules' (after_all c q.1 later)).0) one
            ∙ ap (λ r. r.0) two
            ∙ ap (λ x. ok x) (create-again k w rules' (after_all c p' later) s),
        s.is_for,
      )
