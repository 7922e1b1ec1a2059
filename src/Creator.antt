-- ===== src/Creator.antt =====
-- The creator of exporter.go: its construction, Start and Shutdown, and the entry points of the three
-- signals. The host is a list of extensions; an observer is its reference.
pub mod Consuming
pub mod Observers
pub mod Found
pub mod Subscribed
pub mod Tests
use exportercreator.Prelude.{
  ℕ, Bool, true, false, List, [], ◌∷◌, ◌++◌, Option, none, some, if◌then◌else◌, ◌==◌, Text,
}
use exportercreator.Prelude.Outcome.{Outcome, ok, err, ◌>>=◌}
use exportercreator.Prelude.GoMap.{GoMap, lookup, insert}
use exportercreator.Value.{Value}
use exportercreator.Component.{ComponentId, id_Eq, Signal, logs, metrics, traces}
use exportercreator.Router.{RoutingRule, TelemetryRouter, new_telemetry_router, route}
use exportercreator.Tracker.{EndpointTracker, new_endpoint_tracker}
use exportercreator.Handler.{ObserverHandler, Runner, new_observer_handler, shutdown}
use exportercreator.Notify.{ObserverNotify, new_observer_notify}
use exportercreator.Wrapped.{Exporter, Warnings}
use exportercreator.Pdata.{
  ResourceLogs, ResourceMetrics, ResourceSpans, count_resource_log_records,
  count_resource_metric_points, count_resource_spans,
}
use exportercreator.Consume.{Delivery, Consumed, consume_batch}
use exportercreator.Consume.Metrics.{consume_metrics_batch}

-- an observer with the subscription that was registered on it
pub record WatchedObserver : Type 0 where
  pub observable : ℕ
  pub notify : ObserverNotify

-- `observable.ListAndWatch(notify)`
pub data ListAndWatch : Type 0 where
  list_and_watch : ℕ → ObserverNotify → ListAndWatch

pub record ExporterCreator : Type 0 where
  pub router : Option TelemetryRouter
  pub telemetry : Bool
  pub default_exporters : List ℕ
  pub observer_handler : Option ObserverHandler
  pub watched : List WatchedObserver

-- An extension of the host: an observer, or another one.
pub data Extension : Type 0 where
  observer : ℕ → Extension
  other : Extension

pub data StartError : Type 0 where
  incompatible_host : StartError
  not_an_observer not_found : ComponentId → StartError

unfoldable pub new_exporter_creator : List RoutingRule → ExporterCreator
new_exporter_creator rules = record {
  router = some (new_telemetry_router rules true);
  telemetry = true;
  default_exporters = [];
  observer_handler = none;
  watched = [];
}

-- The inner and the outer loop of `Start` over the extensions.
unfoldable pub match_extensions :
    ComponentId
    → GoMap ComponentId Extension
    → GoMap ComponentId ℕ
    → Outcome StartError (GoMap ComponentId ℕ)
match_extensions watched [] observers = ok observers
match_extensions watched ((cid, ext) ∷ exts) observers =
    if cid == watched
    then (elim ext [
      | observer obs ↦ match_extensions watched exts (insert watched obs observers)
      | other ↦ err (not_an_observer watched)
    ])
    else match_extensions watched exts observers

unfoldable pub match_observers :
    List ComponentId
    → GoMap ComponentId Extension
    → GoMap ComponentId ℕ
    → Outcome StartError (GoMap ComponentId ℕ)
unfolding match_extensions
match_observers [] exts observers = ok observers
match_observers (watched ∷ ws) exts observers = do
  found ← match_extensions watched exts observers
  match_observers ws exts found

-- All observers have to be there before one is started.
unfoldable pub check_present :
    List ComponentId → GoMap ComponentId ℕ → Outcome StartError (GoMap ComponentId ℕ)
unfolding lookup
check_present [] observers = ok observers
check_present (watched ∷ ws) observers = elim (lookup watched observers) [
  | none ↦ err (not_found watched)
  | some obs ↦ check_present ws observers
]

unfoldable pub find_observers :
    List ComponentId → GoMap ComponentId Extension → Outcome StartError (GoMap ComponentId ℕ)
unfolding match_observers check_present
find_observers ws exts = do observers ← match_observers ws exts []; check_present ws observers

-- what `Start` sets before it looks for the observers
abbrev pub with_handler : TelemetryRouter → ExporterCreator → ExporterCreator
with_handler router ec = record ec {
  default_exporters = [];
  observer_handler = some (new_observer_handler router);
}

module _ (id_text : ComponentId → Text) where
  -- the loop that starts the watchers, with the calls of the observers so far
  unfoldable pub watch_each :
      ComponentId
      → GoMap ComponentId ℕ
      → List WatchedObserver × List ListAndWatch
      → List WatchedObserver × List ListAndWatch
  watch_each creator_id [] (watched, calls) = (watched, calls)
  watch_each creator_id ((observer_id, obs) ∷ observers) (watched, calls) =
      let n = new_observer_notify id_text creator_id observer_id in
      watch_each creator_id observers (
        watched ++ (record { observable = obs; notify = n }) ∷ [],
        calls ++ list_and_watch obs n ∷ [],
      )

  unfoldable pub watching :
      ComponentId
      → Outcome StartError (GoMap ComponentId ℕ)
      → ExporterCreator
      → Option StartError × ExporterCreator × List ListAndWatch
  unfolding watch_each
  watching creator_id (err e) ec = (some e, ec, [])
  watching creator_id (ok observers) ec =
      let (watched, calls) = watch_each creator_id observers (ec.watched, []) in
      (none, record ec { watched = watched }, calls)

  -- `Start`, with the calls of observers that it makes: the host is none if it is not of the kind
  -- that is needed.
  unfoldable pub start :
      ComponentId
      → List ComponentId
      → TelemetryRouter
      → Option (GoMap ComponentId Extension)
      → ExporterCreator
      → Option StartError × ExporterCreator × List ListAndWatch
  unfolding find_observers watching
  start creator_id ws router none ec = (some incompatible_host, ec, [])
  start creator_id ws router (some exts) ec =
      watching creator_id (find_observers ws exts) (with_handler router ec)

-- what `Shutdown` does to the handler, if there is one
unfoldable pub shutdown_handler :
    Runner → Option ObserverHandler → List (Text × Text) × Option ObserverHandler
shutdown_handler runner none = ([], none)
shutdown_handler runner (some oh) = let (errs, oh') = shutdown runner oh in (errs, some oh')

-- `Shutdown`: the subscriptions that are taken back, the errors, and the creator.
unfoldable pub shutdown_creator :
    Runner → ExporterCreator → List WatchedObserver × List (Text × Text) × ExporterCreator
unfolding shutdown_handler
shutdown_creator runner ec =
    let (errs, handler) = shutdown_handler runner ec.observer_handler in
    (ec.watched, errs, record ec { observer_handler = handler })
