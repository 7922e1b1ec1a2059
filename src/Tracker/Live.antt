-- ===== src/Tracker/Live.antt =====
-- Which endpoints the tracker holds for live.
use exportercreator.Prelude.{
  ◌≡◌, refl, ap, sym, ◌∙◌, List, [], ◌∷◌, Option, none, some, if◌then◌else◌, Text, text_Eq, ◌==◌,
  pair_Eq, Bool-cases, inl, inr,
}
use exportercreator.Prelude.GoMap.{GoMap, lookup, lookup-insert, lookup-delete}
use exportercreator.Component.{ComponentId, id_Eq, Endpoint, endpoint_type_of}
use exportercreator.Tracker.{
  LiveMap, Totals, EndpointTracker, map_at, track_known, track_each, track, untrack_known,
  untrack_each, untrack, put_back,
}

-- The type that an endpoint was last reported with, after reports `es` on top of `known`.
abbrev pub last_reported : Text → List Endpoint → Option Text → Option Text
last_reported id [] known = known
last_reported id (e ∷ es) known =
    last_reported id es (if e.id == id then some (endpoint_type_of e) else known)

abbrev pub retracted : Text → List Endpoint → Option Text → Option Text
retracted id [] known = known
retracted id (e ∷ es) known = retracted id es (if e.id == id then none else known)

-- One report sets the endpoint's type and touches no other endpoint.
lookup-track_known :
    (o : Option Text) (observer_type id j endpoint_type : Text) (live : LiveMap) (totals : Totals)
    → lookup id live ≡ o
    → lookup j (track_known o observer_type id endpoint_type live totals).0
      ≡ (if id == j then some endpoint_type else lookup j live)
unfolding track_known
lookup-track_known none ot id j ty live totals e = lookup-insert id j ty live
lookup-track_known (some previous) ot id j ty live totals e = elim (Bool-cases (previous == ty)) [
  | inl same ↦ rw same (elim (Bool-cases (id == j)) [
    | inl here ↦
        let q : id ≡ j = (text_Eq.beq_iff id j).0 here in
        let r : previous ≡ ty = (text_Eq.beq_iff previous ty).0 same in
        rw here (ap (λ k. lookup k live) (sym q) ∙ e ∙ ap (λ k. some k) r)
    | inr other ↦ rw other
  ])
  | inr moved ↦ rw moved (lookup-insert id j ty live)
]

lookup-track_each :
    (ot j : Text) (es : List Endpoint) (live : LiveMap) (totals : Totals)
    → lookup j (track_each ot es live totals).0 ≡ last_reported j es (lookup j live)
unfolding track_each
lookup-track_each ot j [] live totals = refl
lookup-track_each ot j (e ∷ es) live totals =
    let o = lookup e.id live in
    let step = track_known o ot e.id (endpoint_type_of e) live totals in
    lookup-track_each ot j es step.0 step.1
    ∙ ap (last_reported j es) (lookup-track_known o ot e.id j (endpoint_type_of e) live totals refl)

lookup-track :
    (observer o : ComponentId) (j : Text) (es : List Endpoint) (t : EndpointTracker)
    → lookup j (map_at (lookup o (track observer es t).0.live)) ≡ (
        if observer == o
        then last_reported j es (lookup j (map_at (lookup observer t.live)))
        else lookup j (map_at (lookup o t.live)))
unfolding track
lookup-track observer o j es t = rw lookup-insert (elim (Bool-cases (observer == o)) [
  | inl same ↦ rw same (lookup-track_each observer.kind j es _ t.totals)
  | inr other ↦ rw other
])

lookup-untrack_known :
    (o : Option Text) (observer_type id j : Text) (live : LiveMap) (totals : Totals)
    → lookup id live ≡ o
    → lookup j (untrack_known o observer_type id live totals).0
      ≡ (if id == j then none else lookup j live)
unfolding untrack_known
lookup-untrack_known none ot id j live totals e = elim (Bool-cases (id == j)) [
  | inl here ↦
      let q : id ≡ j = (text_Eq.beq_iff id j).0 here in
      rw here (ap (λ k. lookup k live) (sym q) ∙ e)
  | inr other ↦ rw other
]
lookup-untrack_known (some previous) ot id j live totals e = lookup-delete id j live

lookup-untrack_each :
    (ot j : Text) (es : List Endpoint) (live : LiveMap) (totals : Totals)
    → lookup j (untrack_each ot es live totals).0 ≡ retracted j es (lookup j live)
unfolding untrack_each
lookup-untrack_each ot j [] live totals = refl
lookup-untrack_each ot j (e ∷ es) live totals =
    let o = lookup e.id live in
    let step = untrack_known o ot e.id live totals in
    lookup-untrack_each ot j es step.0 step.1
    ∙ ap (retracted j es) (lookup-untrack_known o ot e.id j live totals refl)

retracted-none : (j : Text) (es : List Endpoint) → retracted j es none ≡ none
retracted-none j [] = refl
retracted-none j (e ∷ es) = elim (Bool-cases (e.id == j)) [
  | inl here ↦ rw here (retracted-none j es)
  | inr other ↦ rw other (retracted-none j es)
]

lookup-put_back :
    (found : Option LiveMap) (observer o : ComponentId) (j : Text) (es : List Endpoint)
    (live' : LiveMap) (m : GoMap ComponentId LiveMap)
    → lookup observer m ≡ found
    → lookup j live' ≡ retracted j es (lookup j (map_at found))
    → lookup j (map_at (lookup o (put_back found observer live' m))) ≡ (
        if observer == o
        then retracted j es (lookup j (map_at found))
        else lookup j (map_at (lookup o m)))
unfolding put_back
lookup-put_back none observer o j es live' m e h = elim (Bool-cases (observer == o)) [
  | inl same ↦
      let q : observer ≡ o = (id_Eq.beq_iff observer o).0 same in
      rw same (
        ap (λ k. lookup j (map_at (lookup k m))) (sym q)
        ∙ ap (λ r. lookup j (map_at r)) e
        ∙ lookup-nil j
        ∙ sym (ap (retracted j es) (lookup-nil j) ∙ retracted-none j es))
  | inr other ↦ rw other
]
  where
    lookup-nil : (k : Text) → lookup k (map_at none) ≡ none
    lookup-nil k = unfold lookup in refl
lookup-put_back (some live) observer o j es live' m e h =
    rw lookup-insert
      (elim (Bool-cases (observer == o)) [ inl same ↦ rw same h | inr other ↦ rw other ])

lookup-untrack :
    (observer o : ComponentId) (j : Text) (es : List Endpoint) (t : EndpointTracker)
    → lookup j (map_at (lookup o (untrack observer es t).0.live)) ≡ (
        if observer == o
        then retracted j es (lookup j (map_at (lookup observer t.live)))
        else lookup j (map_at (lookup o t.live)))
unfolding untrack
lookup-untrack observer o j es t =
    lookup-put_back (lookup observer t.live) observer o j es _ t.live refl
      (lookup-untrack_each observer.kind j es (map_at (lookup observer t.live)) t.totals)

-- After `track`, an observer's live endpoints are those it had, each reported endpoint with the type
-- of its last report, and after `untrack` those it had but for the retracted ones; the live
-- endpoints of the other observers are unchanged by both.
pub live_lem :
    (observer o : ComponentId) (j : Text) (es : List Endpoint) (t : EndpointTracker)
    → (lookup j (map_at (lookup o (track observer es t).0.live)) ≡ (
        if observer == o
        then last_reported j es (lookup j (map_at (lookup observer t.live)))
        else lookup j (map_at (lookup o t.live))))
      × (lookup j (map_at (lookup o (untrack observer es t).0.live)) ≡ (
          if observer == o
          then retracted j es (lookup j (map_at (lookup observer t.live)))
          else lookup j (map_at (lookup o t.live))))
live_lem observer o j es t = (lookup-track observer o j es t, lookup-untrack observer o j es t)
