-- ===== src/Handler.antt =====
-- The observer handler of observerhandler.go: endpoints that are added start exporters, and
-- endpoints that are removed stop theirs. The runner is an interface of two answers, which may
-- depend on all the calls before. Logs are left out. Each notification holds the handler's lock
-- throughout, so it is one step of the state.
mod Resolve
pub mod History
pub mod InStep
pub mod Calls
pub mod Leaks
pub mod Errors
pub mod Removed
pub mod Routed
pub mod Answered
pub mod Target
pub mod Tests
unfoldable pub use Resolve.{
  is_some, has_key, discovered_cfg, attr_value_text, add_attributes, routing_env, discover,
  resolve_configs,
}
pub use Resolve.{endpoint_config_key, tmp_set_endpoint_config_key}
use exportercreator.Prelude.{
  ℕ, Bool, List, [], ◌∷◌, ◌++◌, Option, none, some, if◌then◌else◌, Text, ltb, length,
}
use exportercreator.Prelude.Outcome.{Outcome, ok, err}
use exportercreator.Value.{Value, Fields}
use exportercreator.Component.{Endpoint}
use exportercreator.ExporterMap as Multimap
use exportercreator.ExporterMap.{ExporterMap, get, remove_all}
use exportercreator.Router.{TelemetryRouter, new_telemetry_router, add_exporter, remove_exporter}
use exportercreator.Expansion.{Evaluated}
use exportercreator.Rules.{eval_rule}
use exportercreator.Config.{ExporterConfig, ExporterSignals, ExporterTemplate}

-- A call of the runner, with what it returned.
pub data RunnerCall : Type 0 where
  started : ExporterConfig → Fields → ExporterSignals → Outcome Text ℕ → RunnerCall
  stopped : ℕ → Option Text → RunnerCall

-- The `runner` interface: the answers, given the calls before.
pub record Runner : Type 0 where
  pub start : List RunnerCall → ExporterConfig → Fields → ExporterSignals → Outcome Text ℕ
  pub shutdown : List RunnerCall → ℕ → Option Text

pub record ObserverHandler : Type 0 where
  pub exporters_by_endpoint : ExporterMap
  pub router : TelemetryRouter
  pub calls : List RunnerCall

module _ (composite : Value → Text) (eval : Text → Fields → Evaluated) (runner : Runner) where
  -- what `startExporter` does with what the runner returned
  unfoldable pub register :
      ExporterTemplate → Fields → Endpoint → Outcome Text ℕ → ObserverHandler → ObserverHandler
  unfolding routing_env
  register template env e (err message) oh = oh
  register template env e (ok exp) oh = record oh {
    exporters_by_endpoint = Multimap.put e.id exp oh.exporters_by_endpoint;
    router =
        (add_exporter e.id exp (routing_env composite eval template env)
          template.exporter_config.id.kind oh.router).0;
  }

  unfoldable pub run_exporter :
      ExporterTemplate → Fields → Endpoint → Fields × Fields → ObserverHandler → ObserverHandler
  unfolding register
  run_exporter template env e (resolved, discovered) oh =
      let cfg : ExporterConfig = record {
        id = template.exporter_config.id;
        config = resolved;
        endpoint_id = e.id;
      } in
      let answer = runner.start oh.calls cfg discovered template.signals in
      register template env e answer
        (record oh { calls = oh.calls ++ started cfg discovered template.signals answer ∷ [] })

  unfoldable pub start_exporter :
      ExporterTemplate → Fields → Endpoint → ObserverHandler → ObserverHandler
  unfolding resolve_configs run_exporter
  start_exporter template env e oh = elim (resolve_configs composite eval template env e.target) [
    | none ↦ oh
    | some configs ↦ run_exporter template env e configs oh
  ]

  -- the loop over the templates, each with the result of its rule
  unfoldable pub match_templates :
      List ExporterTemplate → Fields → Endpoint → ObserverHandler → ObserverHandler
  unfolding start_exporter
  match_templates [] env e oh = oh
  match_templates (template ∷ templates) env e oh = elim (eval_rule template.rule env) [
    | err message ↦ match_templates templates env e oh
    | ok matches ↦
        match_templates templates env e (if matches then start_exporter template env e oh else oh)
  ]

  unfoldable pub add_endpoint : List ExporterTemplate → Endpoint → ObserverHandler → ObserverHandler
  unfolding match_templates
  add_endpoint templates e oh = elim e.env [
    | none ↦ oh
    | some env ↦ match_templates templates env e oh
  ]

  unfoldable pub on_add_locked :
      List ExporterTemplate → List Endpoint → ObserverHandler → ObserverHandler
  unfolding add_endpoint
  on_add_locked templates [] oh = oh
  on_add_locked templates (e ∷ added) oh =
      on_add_locked templates added (add_endpoint templates e oh)

-- The handler that `Start` makes.
unfoldable pub new_observer_handler : TelemetryRouter → ObserverHandler
new_observer_handler router = record { exporters_by_endpoint = []; router = router; calls = [] }

-- What `onRemoveLocked` drops once the exporters of an endpoint are stopped.
unfoldable pub forget : Text → ObserverHandler → ObserverHandler
forget id oh = record oh {
  router = (remove_exporter id oh.router).0;
  exporters_by_endpoint = remove_all id oh.exporters_by_endpoint;
}

module _ (runner : Runner) where
  -- A call of `runner.shutdown`; whether it fails only shows in a log.
  unfoldable pub stop_exporter : ℕ → ObserverHandler → ObserverHandler
  stop_exporter exp oh = record oh {
    calls = oh.calls ++ stopped exp (runner.shutdown oh.calls exp) ∷ [];
  }

  unfoldable pub stop_each : List ℕ → ObserverHandler → ObserverHandler
  unfolding stop_exporter
  stop_each [] oh = oh
  stop_each (exp ∷ exps) oh = stop_each exps (stop_exporter exp oh)

  unfoldable pub remove_endpoint : Endpoint → ObserverHandler → ObserverHandler
  unfolding stop_each forget
  remove_endpoint e oh =
      let exps = get e.id oh.exporters_by_endpoint in
      if ltb 0 (length exps) then forget e.id (stop_each exps oh) else oh

  unfoldable pub on_remove_locked : List Endpoint → ObserverHandler → ObserverHandler
  unfolding remove_endpoint
  on_remove_locked [] oh = oh
  on_remove_locked (e ∷ removed) oh = on_remove_locked removed (remove_endpoint e oh)

  -- the inner and the outer loop of `shutdown`, with the errors so far
  unfoldable pub shutdown_each :
      Text → List ℕ → List (Text × Text) → ObserverHandler → List (Text × Text) × ObserverHandler
  unfolding stop_exporter
  shutdown_each id [] errs oh = (errs, oh)
  shutdown_each id (exp ∷ exps) errs oh =
      let errs' : List (Text × Text) = elim (runner.shutdown oh.calls exp) [
        | none ↦ errs
        | some message ↦ errs ++ (id, message) ∷ []
      ] in
      shutdown_each id exps errs' (stop_exporter exp oh)

  unfoldable pub shutdown_all :
      ExporterMap → List (Text × Text) → ObserverHandler → List (Text × Text) × ObserverHandler
  unfolding shutdown_each
  shutdown_all [] errs oh = (errs, oh)
  shutdown_all ((id, exps) ∷ em) errs oh =
      let (errs', oh') = shutdown_each id exps errs oh in shutdown_all em errs' oh'

  -- `shutdown` fails with the errors it has collected, if there are any.
  unfoldable pub shutdown : ObserverHandler → List (Text × Text) × ObserverHandler
  unfolding shutdown_all
  shutdown oh = shutdown_all oh.exporters_by_endpoint [] oh

module _ (composite : Value → Text) (eval : Text → Fields → Evaluated) (runner : Runner) where
  unfoldable pub on_change :
      List ExporterTemplate → List Endpoint → ObserverHandler → ObserverHandler
  unfolding on_remove_locked on_add_locked
  on_change templates changed oh =
      on_add_locked composite eval runner templates changed (on_remove_locked runner changed oh)
