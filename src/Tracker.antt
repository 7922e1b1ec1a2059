-- ===== src/Tracker.antt =====
-- The endpoint counts of endpointtracker.go. Every method holds the tracker's lock throughout, so a
-- call is one step of the state. A map that `live` holds is written through: here it is put back.
mod Counts
pub mod Invariant
pub mod Live
pub mod Tests
use exportercreator.Prelude.{
  ℕ, Bool, true, false, List, [], ◌∷◌, Option, none, some, if◌then◌else◌, Text, text_Eq, ◌==◌,
  pair_Eq,
}
use exportercreator.Prelude.GoMap.{GoMap, lookup, insert, delete}
use exportercreator.Prelude.MultiMap.{increment, decrement}
use exportercreator.Component.{ComponentId, id_Eq, Endpoint, endpoint_type_of}

-- endpointSeries: the observer's type and the endpoint's
abbrev pub EndpointSeries : Type 0
EndpointSeries = Text × Text

abbrev pub LiveMap : Type 0
LiveMap = GoMap Text Text

abbrev pub Totals : Type 0
Totals = GoMap EndpointSeries ℕ

pub record EndpointTracker : Type 0 where
  pub telemetry : Bool
  pub live : GoMap ComponentId LiveMap
  pub totals : Totals

abbrev pub map_at : Option LiveMap → LiveMap
map_at none = []
map_at (some m) = m

unfoldable pub new_endpoint_tracker : Bool → EndpointTracker
new_endpoint_tracker telemetry = record { telemetry = telemetry; live = []; totals = [] }

-- what the loop of `track` does with an endpoint that was live under `previous`, or not at all
unfoldable pub track_known : Option Text → Text → Text → Text → LiveMap → Totals → LiveMap × Totals
track_known none observer_type id endpoint_type live totals =
    (insert id endpoint_type live, increment (observer_type, endpoint_type) totals)
track_known (some previous) observer_type id endpoint_type live totals =
    if previous == endpoint_type then (live, totals) else (
      insert id endpoint_type live,
      increment (observer_type, endpoint_type) (decrement (observer_type, previous) totals),
    )

unfoldable pub track_each : Text → List Endpoint → LiveMap → Totals → LiveMap × Totals
unfolding track_known
track_each observer_type [] live totals = (live, totals)
track_each observer_type (e ∷ es) live totals =
    let (live', totals') =
      track_known (lookup e.id live) observer_type e.id (endpoint_type_of e) live totals in
    track_each observer_type es live' totals'

-- `recordLocked`: every series, those at zero too
unfoldable pub record_locked : EndpointTracker → Totals
record_locked t = if t.telemetry then t.totals else []

unfoldable pub track : ComponentId → List Endpoint → EndpointTracker → EndpointTracker × Totals
unfolding track_each record_locked
track observer_id endpoints t =
    let live = map_at (lookup observer_id t.live) in
    let (live', totals') = track_each observer_id.kind endpoints live t.totals in
    let t' = record t { live = insert observer_id live' t.live; totals = totals' } in
    (t', record_locked t')

unfoldable pub untrack_known : Option Text → Text → Text → LiveMap → Totals → LiveMap × Totals
untrack_known none observer_type id live totals = (live, totals)
untrack_known (some previous) observer_type id live totals =
    (delete id live, decrement (observer_type, previous) totals)

unfoldable pub untrack_each : Text → List Endpoint → LiveMap → Totals → LiveMap × Totals
unfolding untrack_known
untrack_each observer_type [] live totals = (live, totals)
untrack_each observer_type (e ∷ es) live totals =
    let (live', totals') = untrack_known (lookup e.id live) observer_type e.id live totals in
    untrack_each observer_type es live' totals'

-- An observer that was never tracked has a nil map, which is read as empty and never written.
unfoldable pub put_back :
    Option LiveMap → ComponentId → LiveMap → GoMap ComponentId LiveMap → GoMap ComponentId LiveMap
put_back none observer_id live' m = m
put_back (some live) observer_id live' m = insert observer_id live' m

unfoldable pub untrack : ComponentId → List Endpoint → EndpointTracker → EndpointTracker × Totals
unfolding untrack_each put_back record_locked
untrack observer_id endpoints t =
    let found = lookup observer_id t.live in
    let (live', totals') = untrack_each observer_id.kind endpoints (map_at found) t.totals in
    let t' = record t { live = put_back found observer_id live' t.live; totals = totals' } in
    (t', record_locked t')
