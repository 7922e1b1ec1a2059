-- ===== src/Tracker/Counts.antt =====
-- How the loops of the tracker change the total of a series.
use exportercreator.Prelude.{
  ℕ, ◌+◌, ◌%◌, ◌≡◌, refl, ap, ◌∙◌, List, [], ◌∷◌, Option, none, some, Text, text_Eq, ◌==◌, pair_Eq,
  Bool-cases, inl, inr, arith, word,
}
use exportercreator.Prelude.GoMap.{
  GoMap, Distinct, lookup, insert, delete, total, weight, insert-Distinct, delete-Distinct,
  total-insert, total-delete,
}
use exportercreator.Prelude.MultiMap.{number_at, decrement, hit, number-increment, number-decrement}
use exportercreator.Component.{ComponentId, id_Eq, Endpoint, endpoint_type_of}
use exportercreator.Tracker.{
  EndpointSeries, LiveMap, Totals, map_at, track_known, track_each, untrack_known, untrack_each,
}

-- the endpoints of one observer that belong to a series
abbrev pub in_series : EndpointSeries → Text → Text → Text → ℕ
in_series s observer_type id endpoint_type = hit (observer_type, endpoint_type) s

abbrev pub part : EndpointSeries → Text → LiveMap → ℕ
part s observer_type live = total (in_series s observer_type) live

-- The number of live endpoints of a series, over all observers: each observer's endpoints count
-- under its type, and each endpoint under the type that it was last reported with.
abbrev pub observed : EndpointSeries → GoMap ComponentId LiveMap → ℕ
observed s live = total (λ observer m. part s observer.kind m) live

module _ (s : EndpointSeries) (observer_type : Text) (base : ℕ) where
  -- the totals agree on the series, where the other observers contribute `base`
  abbrev pub Agrees : LiveMap → Totals → Type 0
  Agrees live totals = number_at (lookup s totals) ≡ (base + part s observer_type live) % word

  track_known-Agrees :
      (o : Option Text) (id endpoint_type : Text) (live : LiveMap) (totals : Totals)
      → lookup id live ≡ o
      → Distinct live
      → Agrees live totals
      → Agrees
          (track_known o observer_type id endpoint_type live totals).0
          (track_known o observer_type id endpoint_type live totals).1
  unfolding track_known
  track_known-Agrees none id ty live totals e d h =
      number-increment (observer_type, ty) s totals (base + part s observer_type live) h
      ∙ ap (λ n. n % word)
          (omega (
            arith,
            total-insert (in_series s observer_type) id ty live,
            ap (weight (in_series s observer_type) id) e,
          ))
  track_known-Agrees (some previous) id ty live totals e d h =
      let f = in_series s observer_type in
      let out = total-delete f id live d in
      let into = total-insert f id ty live in
      let was = ap (weight f id) e in
      elim (Bool-cases (previous == ty)) [
        | inl same ↦ rw same h
        | inr moved ↦ rw moved (
            number-increment (observer_type, ty) s (decrement (observer_type, previous) totals)
              (base + total f (delete id live))
              (number-decrement (observer_type, previous) s totals (base + total f (delete id live))
                (h ∙ ap (λ n. n % word) (omega (arith, out, was))))
            ∙ ap (λ n. n % word) (omega (arith, out, into, was)))
      ]

  track_known-Distinct :
      (o : Option Text) (id endpoint_type : Text) (live : LiveMap) (totals : Totals)
      → Distinct live
      → Distinct (track_known o observer_type id endpoint_type live totals).0
  unfolding track_known
  track_known-Distinct none id ty live totals d = insert-Distinct id ty live d
  track_known-Distinct (some previous) id ty live totals d = elim (Bool-cases (previous == ty)) [
    | inl same ↦ rw same d
    | inr moved ↦ rw moved (insert-Distinct id ty live d)
  ]

  pub track_each-Agrees :
      (es : List Endpoint) (live : LiveMap) (totals : Totals)
      → Distinct live
      → Agrees live totals
      → Distinct (track_each observer_type es live totals).0
        × Agrees
            (track_each observer_type es live totals).0
            (track_each observer_type es live totals).1
  unfolding track_each
  track_each-Agrees [] live totals d h = (d, h)
  track_each-Agrees (e ∷ es) live totals d h =
      let o = lookup e.id live in
      let ty = endpoint_type_of e in
      let step = track_known o observer_type e.id ty live totals in
      track_each-Agrees es step.0 step.1 (track_known-Distinct o e.id ty live totals d)
        (track_known-Agrees o e.id ty live totals refl d h)

  untrack_known-Agrees :
      (o : Option Text) (id : Text) (live : LiveMap) (totals : Totals)
      → lookup id live ≡ o
      → Distinct live
      → Agrees live totals
      → Distinct (untrack_known o observer_type id live totals).0
        × Agrees
            (untrack_known o observer_type id live totals).0
            (untrack_known o observer_type id live totals).1
  unfolding untrack_known
  untrack_known-Agrees none id live totals e d h = (d, h)
  untrack_known-Agrees (some previous) id live totals e d h =
      let f = in_series s observer_type in
      (
        delete-Distinct id live d,
        number-decrement (observer_type, previous) s totals (base + total f (delete id live))
            (h ∙ ap (λ n. n % word) (omega (arith, total-delete f id live d, ap (weight f id) e))),
      )

  pub untrack_each-Agrees :
      (es : List Endpoint) (live : LiveMap) (totals : Totals)
      → Distinct live
      → Agrees live totals
      → Distinct (untrack_each observer_type es live totals).0
        × Agrees
            (untrack_each observer_type es live totals).0
            (untrack_each observer_type es live totals).1
  unfolding untrack_each
  untrack_each-Agrees [] live totals d h = (d, h)
  untrack_each-Agrees (e ∷ es) live totals d h =
      let o = lookup e.id live in
      let step = untrack_known o observer_type e.id live totals in
      let (d', h') = untrack_known-Agrees o e.id live totals refl d h in
      untrack_each-Agrees es step.0 step.1 d' h'

abbrev pub by_observer : EndpointSeries → ComponentId → LiveMap → ℕ
by_observer s observer m = part s observer.kind m

-- the other observers' share of a series
abbrev pub others : EndpointSeries → ComponentId → GoMap ComponentId LiveMap → ℕ
others s observer live = total (by_observer s) (delete observer live)

part-map_at :
    (s : EndpointSeries) (observer : ComponentId) (o : Option LiveMap)
    → weight (by_observer s) observer o ≡ part s observer.kind (map_at o)
unfolding total
part-map_at s observer none = refl
part-map_at s observer (some m) = refl

module _ (s : EndpointSeries) (observer : ComponentId) (live : GoMap ComponentId LiveMap) where
  pub split_observed :
      Distinct live
      → observed s live
        ≡ others s observer live + part s observer.kind (map_at (lookup observer live))
  split_observed d = omega (
    arith,
    total-delete (by_observer s) observer live d,
    part-map_at s observer (lookup observer live),
  )

  pub observed-insert :
      (m : LiveMap)
      → Distinct live
      → observed s (insert observer m live) ≡ others s observer live + part s observer.kind m
  observed-insert m d = omega (
    arith,
    total-delete (by_observer s) observer live d,
    total-insert (by_observer s) observer m live,
  )
