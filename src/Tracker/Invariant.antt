-- ===== src/Tracker/Invariant.antt =====
-- The totals of the tracker are the numbers of live endpoints of each series.
use exportercreator.Prelude.{
  ◌%◌, ◌≡◌, refl, ap, sym, ◌∙◌, Bool, List, [], ◌∷◌, Option, none, some, Text, text_Eq, ◌==◌,
  pair_Eq, Bool-cases, inl, inr, word,
}
use mathlib.Core.Path.{subst}
use exportercreator.Prelude.GoMap.{
  GoMap, Distinct, lookup, insert, insert-Distinct, lookup-insert, total,
}
use exportercreator.Prelude.MultiMap.{number_at}
use exportercreator.Component.{ComponentId, id_Eq, Endpoint}
use exportercreator.Tracker.{
  EndpointSeries, LiveMap, Totals, EndpointTracker, map_at, new_endpoint_tracker, track_each, track,
  untrack_each, put_back, untrack,
}
use exportercreator.Tracker.Counts.{
  observed, Agrees, track_each-Agrees, untrack_each-Agrees, others, split_observed, observed-insert,
}

-- The state agrees with itself: keys stand once, and the totals are the numbers observed.
pub record IsCounted (t : EndpointTracker) : Type 0 where
  pub distinct : Distinct t.live
  pub each_distinct : (o : ComponentId) → Distinct (map_at (lookup o t.live))
  pub agrees : (s : EndpointSeries) → number_at (lookup s t.totals) ≡ observed s t.live % word

map_at-Distinct-insert :
    (o j : ComponentId) (m : LiveMap) (live : GoMap ComponentId LiveMap)
    → Distinct m
    → Distinct (map_at (lookup j live))
    → Distinct (map_at (lookup j (insert o m live)))
map_at-Distinct-insert o j m live dm dj =
    rw lookup-insert
      (elim (Bool-cases (o == j)) [ inl same ↦ rw same dm | inr other ↦ rw other dj ])

untrack_each-empty :
    (observer_type : Text) (es : List Endpoint) (totals : Totals)
    → untrack_each observer_type es [] totals ≡ ([], totals)
unfolding untrack_each lookup
untrack_each-empty observer_type [] totals = refl
untrack_each-empty observer_type (e ∷ es) totals = untrack_each-empty observer_type es totals

module _ {t : EndpointTracker} (p : IsCounted t) (observer : ComponentId) (es : List Endpoint) where
  -- the totals before the loop, split into this observer's part and the others'
  before :
      (s : EndpointSeries)
      → Agrees s observer.kind (others s observer t.live) (map_at (lookup observer t.live)) t.totals
  before s = p.agrees s ∙ ap (λ n. n % word) (split_observed s observer t.live p.distinct)

  track-IsCounted : IsCounted (track observer es t).0
  unfolding track
  track-IsCounted =
      let live = map_at (lookup observer t.live) in
      let after = track_each observer.kind es live t.totals in
      let loop = λ (s : EndpointSeries).
        track_each-Agrees s observer.kind (others s observer t.live) es live t.totals
          (p.each_distinct observer) (before s) in
      record {
        distinct = insert-Distinct observer after.0 t.live p.distinct;
        each_distinct = λ j.
            map_at-Distinct-insert observer j after.0 t.live (loop (observer.kind, [])).0
              (p.each_distinct j);
        agrees = λ s.
            (loop s).1
            ∙ ap (λ n. n % word) (sym (observed-insert s observer t.live after.0 p.distinct));
      }

  untracked : Option LiveMap → EndpointTracker
  untracked o = record t {
    live = put_back o observer (untrack_each observer.kind es (map_at o) t.totals).0 t.live;
    totals = (untrack_each observer.kind es (map_at o) t.totals).1;
  }

  untracked-IsCounted : (o : Option LiveMap) → lookup observer t.live ≡ o → IsCounted (untracked o)
  unfolding untracked put_back
  untracked-IsCounted none e = record {
    distinct = p.distinct;
    each_distinct = p.each_distinct;
    agrees = λ s.
        ap (λ q. number_at (lookup s q.1)) (untrack_each-empty observer.kind es t.totals)
        ∙ p.agrees s;
  }
  untracked-IsCounted (some m) e =
      let after = untrack_each observer.kind es m t.totals in
      let loop = λ (s : EndpointSeries).
        untrack_each-Agrees s observer.kind (others s observer t.live) es m t.totals
          (subst (λ q. Distinct (map_at q)) e (p.each_distinct observer))
          (subst (λ q. Agrees s observer.kind (others s observer t.live) (map_at q) t.totals) e
            (before s)) in
      record {
        distinct = insert-Distinct observer after.0 t.live p.distinct;
        each_distinct = λ j.
            map_at-Distinct-insert observer j after.0 t.live (loop (observer.kind, [])).0
              (p.each_distinct j);
        agrees = λ s.
            (loop s).1
            ∙ ap (λ n. n % word) (sym (observed-insert s observer t.live after.0 p.distinct));
      }

  untrack-IsCounted : IsCounted (untrack observer es t).0
  unfolding untrack untracked
  untrack-IsCounted = untracked-IsCounted (lookup observer t.live) refl

-- The callbacks of the subscriptions, as calls of the tracker.
pub data TrackerCall : Type 0 where
  add : ComponentId → List Endpoint → TrackerCall
  drop : ComponentId → List Endpoint → TrackerCall

abbrev pub call : EndpointTracker → TrackerCall → EndpointTracker
call t (add observer es) = (track observer es t).0
call t (drop observer es) = (untrack observer es t).0

abbrev pub call_all : EndpointTracker → List TrackerCall → EndpointTracker
call_all t [] = t
call_all t (c ∷ cs) = call_all (call t c) cs

call-IsCounted : {t : EndpointTracker} (c : TrackerCall) → IsCounted t → IsCounted (call t c)
call-IsCounted (add observer es) p = track-IsCounted p observer es
call-IsCounted (drop observer es) p = untrack-IsCounted p observer es

call_all-IsCounted :
    (t : EndpointTracker) (cs : List TrackerCall) → IsCounted t → IsCounted (call_all t cs)
call_all-IsCounted t [] p = p
call_all-IsCounted t (c ∷ cs) p = call_all-IsCounted (call t c) cs (call-IsCounted c p)

new-IsCounted : (telemetry : Bool) → IsCounted (new_endpoint_tracker telemetry)
unfolding new_endpoint_tracker lookup total
new-IsCounted telemetry = record { distinct = tt; each_distinct = λ o. tt; agrees = λ s. refl }

-- After any history of `track` and `untrack` calls of any subscriptions on a new tracker, the total
-- of every series is the number of live endpoints of that series over all observers, as a 64-bit
-- word: repeated reports, changes of type and retractions of unknown endpoints do not disturb it.
pub endpoint_tracker_counts :
    (telemetry : Bool) (cs : List TrackerCall)
    → IsCounted (call_all (new_endpoint_tracker telemetry) cs)
endpoint_tracker_counts telemetry cs = call_all-IsCounted _ cs (new-IsCounted telemetry)
