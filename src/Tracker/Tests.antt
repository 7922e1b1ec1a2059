-- ===== src/Tracker/Tests.antt =====
-- Runs of the tracker, and the theorems about it at a concrete history.
use exportercreator.Prelude.{
  ◌≡◌, refl, true, List, [], ◌∷◌, none, some, Text, text_eq, text_Eq, pair_Eq, int_add, int_sub,
}
use exportercreator.Prelude.GoMap.{lookup, insert, delete}
use exportercreator.Value.Tests.{bytes}
use exportercreator.Component.{ComponentId, id_Eq, Endpoint, endpoint_type_of}
use exportercreator.Tracker.{EndpointTracker, map_at, new_endpoint_tracker, track, untrack}
use exportercreator.Tracker.Invariant.{
  IsCounted, TrackerCall, add, drop, call_all, endpoint_tracker_counts,
}
use exportercreator.Tracker.Live.{live_lem}

abbrev cluster : Text → ComponentId
cluster name = record { kind = bytes "k8s_observer"; name = name }

abbrev reported : Text → Text → Endpoint
reported id kind = record { id = id; target = []; details = some kind; env = none }

-- Two observers of one type report, one endpoint changes its type, and another is retracted.
abbrev calls : List TrackerCall
calls =
    add (cluster (bytes "a"))
      (reported (bytes "x") (bytes "pod") ∷ reported (bytes "y") (bytes "pod") ∷ [])
    ∷ add (cluster (bytes "b")) (reported (bytes "x") (bytes "pod") ∷ [])
    ∷ add (cluster (bytes "a")) (reported (bytes "x") (bytes "port") ∷ [])
    ∷ drop (cluster (bytes "a")) (reported (bytes "y") (bytes "pod") ∷ [])
    ∷ []

abbrev tracker : EndpointTracker
tracker = call_all (new_endpoint_tracker true) calls

totals_run :
    tracker.totals
    ≡ ((bytes "k8s_observer", bytes "pod"), 1) ∷ ((bytes "k8s_observer", bytes "port"), 1) ∷ []
unfolding track untrack new_endpoint_tracker lookup insert delete text_eq int_add int_sub
    endpoint_type_of
totals_run = refl

endpoint_tracker_counts_example : IsCounted tracker
endpoint_tracker_counts_example = endpoint_tracker_counts true calls

live_lem_example :
    (lookup (bytes "x") (
        map_at (
          lookup
            (cluster (bytes "a"))
            (track
              (cluster (bytes "a"))
              (reported (bytes "x") (bytes "port") ∷ [])
              tracker).0.live))
      ≡ some (bytes "port"))
    × (lookup (bytes "x") (
          map_at (
            lookup
              (cluster (bytes "a"))
              (untrack
                (cluster (bytes "a"))
                (reported (bytes "x") (bytes "port") ∷ [])
                tracker).0.live))
        ≡ none)
unfolding text_eq endpoint_type_of
live_lem_example =
    live_lem (cluster (bytes "a")) (cluster (bytes "a")) (bytes "x")
      (reported (bytes "x") (bytes "port") ∷ []) tracker
