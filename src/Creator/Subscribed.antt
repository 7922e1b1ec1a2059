-- ===== src/Creator/Subscribed.antt =====
-- When `Start` succeeds, and the subscriptions that it leaves.
use exportercreator.Prelude.{
  ℕ, ◌≡◌, ◌≢◌, ◌⊎◌, ◌↔◌, refl, ap, sym, ◌∙◌, true, Bool-cases, inl, inr, List, [], ◌∷◌, ◌++◌,
  Option, none, some, All, ◌==◌, Text, map,
}
use mathlib.Core.Path.{subst}
use mathlib.Core.List.{append-nil, append_assoc}
use exportercreator.Prelude.Outcome.{Outcome, ok, err}
use exportercreator.Prelude.Member.{In, first, later, In-append, In-append_left, In-append_right}
use exportercreator.Prelude.GoMap.{GoMap, Distinct, lookup}
use exportercreator.Component.{ComponentId, id_Eq}
use exportercreator.Router.{TelemetryRouter}
use exportercreator.Notify.{new_observer_notify}
use exportercreator.Creator.{
  Extension, observer, StartError, WatchedObserver, ListAndWatch, list_and_watch, ExporterCreator,
  find_observers, watch_each, watching, with_handler, start,
}
use exportercreator.Creator.Observers.{is_listed, find_observers-Distinct}
use exportercreator.Creator.Found.{
  IsObserver, find_observers-IsObserver, find_observers_total, find_observers-lookup,
}

-- The entries of a map with distinct keys are what it is looked up for.
In-lookup :
    (m : GoMap ComponentId ℕ) (k : ComponentId) (v : ℕ)
    → Distinct m
    → In (k, v) m ↔ (lookup k m ≡ some v)
unfolding lookup
In-lookup m k v d = (there m d, back m)
  where
    there : (m : GoMap ComponentId ℕ) → Distinct m → In (k, v) m → lookup k m ≡ some v
    there [] d x = elim x [ ]
    there ((j, w) ∷ m) d (first e) =
        let same : (j == k) ≡ true = (id_Eq.beq_iff j k).1 (sym (ap (λ p. p.0) e)) in
        rw same (ap (λ p. some p.1) (sym e))
    there ((j, w) ∷ m) (absent, d) (later h) = elim (Bool-cases (j == k)) [
      | inl same ↦
          let q : j ≡ k = (id_Eq.beq_iff j k).0 same in
          let e : none ≡ some v = sym absent ∙ ap (λ i. lookup i m) q ∙ there m d h in absurd (cc e)
      | inr apart ↦ rw apart (there m d h)
    ]

    back : (m : GoMap ComponentId ℕ) → lookup k m ≡ some v → In (k, v) m
    back [] e = absurd (cc e)
    back ((j, w) ∷ m) e = elim (Bool-cases (j == k)) [
      | inl same ↦
          let q : j ≡ k = (id_Eq.beq_iff j k).0 same in
          let r : some w ≡ some v = rw same at e in
          let s : w ≡ v = cc r in first (ap (λ i. (i, v)) (sym q) ∙ ap (λ x. (j, x)) (sym s))
      | inr apart ↦ later (back m (rw apart at e))
    ]

module _ (id_text : ComponentId → Text) where
  -- the watcher of one observer
  abbrev watcher : ComponentId → ComponentId × ℕ → WatchedObserver
  watcher creator_id (w, obs) = record {
    observable = obs;
    notify = new_observer_notify id_text creator_id w;
  }

  -- Where a subscription of the loop comes from.
  abbrev Watches : ComponentId → GoMap ComponentId ℕ → WatchedObserver → Type 0
  Watches creator_id observers x =
      (w : ComponentId) × In (w, x.observable) observers
      × (x.notify ≡ new_observer_notify id_text creator_id w)

  one_watcher :
      (creator_id : ComponentId) (entry : ComponentId × ℕ) (observers : GoMap ComponentId ℕ)
      (x : WatchedObserver)
      → In x (watcher creator_id entry ∷ [])
      → Watches creator_id (entry ∷ observers) x
  one_watcher creator_id (w, obs) observers x (first e) = (
    w,
    first (ap (λ (y : WatchedObserver). (w, y.observable)) e),
    ap (λ (y : WatchedObserver). y.notify) e,
  )
  one_watcher creator_id entry observers x (later h) = elim h [ ]

  Watches-cons :
      (creator_id : ComponentId) (entry : ComponentId × ℕ) (observers : GoMap ComponentId ℕ)
      (x : WatchedObserver) (w : ComponentId)
      → In (w, x.observable) (entry ∷ observers)
      → x.notify ≡ new_observer_notify id_text creator_id w
      → (x ≡ watcher creator_id entry) ⊎ Watches creator_id observers x
  Watches-cons creator_id entry observers x w (first e) n = inl (
      let q : watcher creator_id (w, x.observable) ≡ watcher creator_id entry =
        ap (watcher creator_id) e in
      let r : x ≡ watcher creator_id (w, x.observable) =
        ap (λ m. let y : WatchedObserver = record { observable = x.observable; notify = m } in y)
          n in
      r ∙ q)
  Watches-cons creator_id entry observers x w (later i) n = inr (w, i, n)

  -- the call that subscribes to an observer, and what is remembered of it
  abbrev pub listens : ComponentId → ComponentId × ℕ → ListAndWatch
  listens creator_id (w, obs) = list_and_watch obs (new_observer_notify id_text creator_id w)

  abbrev pub remembered : ListAndWatch → WatchedObserver
  remembered (list_and_watch obs n) = record { observable = obs; notify = n }

  watch_each-eq :
      (creator_id : ComponentId) (observers : GoMap ComponentId ℕ) (watched : List WatchedObserver)
      (calls : List ListAndWatch)
      → let news = map (listens creator_id) observers in
        watch_each id_text creator_id observers (watched, calls)
        ≡ (watched ++ map remembered news, calls ++ news)
  unfolding watch_each
  watch_each-eq creator_id [] watched calls = rw (append-nil watched, append-nil calls) refl
  watch_each-eq creator_id ((w, obs) ∷ observers) watched calls =
      let n = new_observer_notify id_text creator_id w in
      let made : WatchedObserver = record { observable = obs; notify = n } in
      watch_each-eq creator_id observers (watched ++ made ∷ []) (calls ++ list_and_watch obs n ∷ [])
      ∙ rw (append_assoc watched (made ∷ []), append_assoc calls (list_and_watch obs n ∷ [])) refl

  listens-In :
      (creator_id : ComponentId) (observers : GoMap ComponentId ℕ) (x : WatchedObserver)
      → In x (map remembered (map (listens creator_id) observers)) ↔ Watches creator_id observers x
  listens-In creator_id [] x = (λ h. elim h [ ], λ h. let (w, i, e) = h in elim i [ ])
  listens-In creator_id ((w, obs) ∷ observers) x =
      let entry : ComponentId × ℕ = (w, obs) in
      let rest = listens-In creator_id observers x in
      (
        λ h. elim h [
          | first e ↦ one_watcher creator_id entry observers x (first e)
          | later i ↦ let (v, j, e) = rest.0 i in (v, later j, e)
        ],
        λ h.
            let (v, i, e) = h in
            elim (Watches-cons creator_id entry observers x v i e) [
              | inl new ↦ first new
              | inr more ↦ later (rest.1 more)
            ],
      )

  -- what `Start` leaves, by what it has found
  watching-In :
      (creator_id : ComponentId) (found : GoMap ComponentId ℕ) (ec : ExporterCreator)
      (x : WatchedObserver)
      → let news = map remembered (map (listens creator_id) found) in
        In x (ec.watched ++ news) ↔ In x ec.watched ⊎ Watches creator_id found x
  watching-In creator_id found ec x =
      let each = listens-In creator_id found x in
      (
        λ h. elim (In-append ec.watched h) [ inl old ↦ inl old | inr new ↦ inr (each.0 new) ],
        λ h. elim h [
          | inl old ↦ In-append_left _ old
          | inr new ↦ In-append_right ec.watched (each.1 new)
        ],
      )

  -- How `Start` comes out, with the creator that it leaves and its calls of observers.
  abbrev pub IsSubscribed :
      ComponentId
      → List ComponentId
      → GoMap ComponentId Extension
      → ExporterCreator
      → Option StartError × ExporterCreator × List ListAndWatch
      → Type 0
  IsSubscribed creator_id ws exts ec (failed, ec', calls) =
      ((failed ≡ none) ↔ All (IsObserver exts) ws)
      × (failed ≡ none
          → (x : WatchedObserver)
          → In x ec'.watched
            ↔ In x ec.watched
              ⊎ ((w : ComponentId) × (is_listed w ws ≡ true)
                  × (lookup w exts ≡ some (observer x.observable))
                  × (x.notify ≡ new_observer_notify id_text creator_id w)))
      × (ec'.watched ≡ ec.watched ++ map remembered calls)
      × (failed ≡ none
          → (found : GoMap ComponentId ℕ) × Distinct found
            × (calls ≡ map (listens creator_id) found))
      × (failed ≢ none → (ec'.watched ≡ ec.watched) × (calls ≡ []))

  -- `Start` on a host whose extensions have distinct ids succeeds just when the extension of every
  -- configured id is an observer. Then it has subscribed to these observers and to no others, each by
  -- the notification that names the creator and the observer: it has called ListAndWatch once for
  -- each of them, with just the notification that it remembers. If it fails, it has subscribed to
  -- none and called none.
  pub start-IsSubscribed :
      (creator_id : ComponentId) (ws : List ComponentId) (router : TelemetryRouter)
      (exts : GoMap ComponentId Extension) (ec : ExporterCreator)
      → Distinct exts
      → IsSubscribed creator_id ws exts ec (start id_text creator_id ws router (some exts) ec)
  unfolding start watching
  start-IsSubscribed creator_id ws router exts ec d = by_answer (find_observers ws exts) refl
    where
      by_answer :
          (o : Outcome StartError (GoMap ComponentId ℕ))
          → find_observers ws exts ≡ o
          → IsSubscribed creator_id ws exts ec
              (watching id_text creator_id o (with_handler router ec))
      by_answer (err e) q = (
        (
          λ h. absurd (cc h),
          λ all.
              let (found, r) = find_observers_total exts ws d all in
              absurd (let c : err e ≡ ok found = sym q ∙ r in cc c),
        ),
        λ h x. absurd (cc h),
        sym (append-nil ec.watched),
        λ h. absurd (cc h),
        λ h. (refl, refl),
      )
      by_answer (ok found) q =
          let distinct = find_observers-Distinct exts ws found d q in
          let news = map (listens creator_id) found in
          subst
            (λ (r : List WatchedObserver × List ListAndWatch).
              IsSubscribed creator_id ws exts ec
                (none, record (with_handler router ec) { watched = r.0 }, r.1))
            (sym (watch_each-eq creator_id found ec.watched []))
            (
              (λ h. find_observers-IsObserver exts ws found d q, λ all. refl),
              λ h x.
                  let each = watching-In creator_id found ec x in
                  (
                    λ i. elim (each.0 i) [
                      | inl old ↦ inl old
                      | inr (w, there, n) ↦
                          let l = (In-lookup found w x.observable distinct).0 there in
                          let (listed, ext) =
                            (find_observers-lookup exts ws found w x.observable d q).0 l in
                          inr (w, listed, ext, n)
                    ],
                    λ o. elim o [
                      | inl old ↦ each.1 (inl old)
                      | inr (w, listed, ext, n) ↦
                          let l =
                            (find_observers-lookup exts ws found w x.observable d q).1
                              (listed, ext) in
                          each.1 (inr (w, (In-lookup found w x.observable distinct).1 l, n))
                    ],
                  ),
              refl,
              λ h. (found, distinct, refl),
              λ h. absurd (h refl),
            )
