-- ===== src/Runner/Served.antt =====
-- The handler with the runner of exporter_runner.go: what the exporters are that Route returns.
use exportercreator.Prelude.{
  ℕ, ◌≡◌, ◌<◌, refl, sym, ap, ◌∙◌, arith, Bool, List, [], Option, none, some, length, take, Text,
  nat_Eq, text_Eq, word,
}
use mathlib.Core.Path.{subst}
use exportercreator.Prelude.Member.{In}
use exportercreator.Prelude.Outcome.{ok}
use exportercreator.Value.{Value, Fields}
use exportercreator.ExporterMap.{values}
use exportercreator.Router.{RoutingRule, new_telemetry_router, route}
use exportercreator.Expansion.{Evaluated}
use exportercreator.Config.{ExporterConfig, ExporterSignals, ExporterTemplate}
use exportercreator.Handler.{RunnerCall, new_observer_handler}
use exportercreator.Handler.History.{Notification, notify_all}
use exportercreator.Handler.Calls.{times_started, times_stopped}
use exportercreator.Handler.Answered.{notify_all-Answered}
use exportercreator.Handler.Routed.{route-running}
use exportercreator.Wrapped.{WrappedExporter}
use exportercreator.Runner.{Factory, new_exporter_runner, run_start}
use exportercreator.Runner.Created.{IsRun, run_start-ok}
use exportercreator.Runner.Serving.{Surroundings, start_wrapped, wrapped_of, exporter_runner}
use exportercreator.Runner.Once.{Start, started_once, Start-wrapped_of}

module _ (s : Surroundings) where
  -- A reference to a wrapped exporter that the runner has made, after the calls before it and with
  -- the factory that the host had then, and that is running: it has been started once and not been
  -- shut down.
  pub record IsServed (calls : List RunnerCall) (exp : ℕ) : Type 0 where
    pub we : WrappedExporter
    pub stands_for : wrapped_of s calls exp ≡ some we
    pub cfg : ExporterConfig
    pub discovered : Fields
    pub signals : ExporterSignals
    pub factory : Factory
    pub is_factory : s.get_factory (take exp calls) cfg.id.kind ≡ some factory
    pub is_run :
        IsRun
          (s.start_exporter (take exp calls))
          s.to_text
          s.quote
          s.id_text
          s.merge
          (new_exporter_runner s.params)
          factory
          cfg
          discovered
          signals
          we
    pub once : times_started exp calls ≡ 1
    pub not_stopped : times_stopped exp calls ≡ 0

  served :
      (calls : List RunnerCall) (exp : ℕ) (start : Start s calls exp)
      → times_started exp calls ≡ 1
      → times_stopped exp calls ≡ 0
      → IsServed calls exp
  unfolding start_wrapped run_start
  served calls exp start once not_stopped =
      let (earlier, stands_for) = Start-wrapped_of s calls exp start in
      with_factory (s.get_factory start.before start.cfg.id.kind) refl start.ran (sym earlier)
        stands_for
    where
      with_factory :
          (o : Option Factory)
          → s.get_factory start.before start.cfg.id.kind ≡ o
          → run_start s.to_text s.quote s.id_text s.merge
              (s.start_exporter start.before)
              (new_exporter_runner s.params)
              o
              start.cfg
              start.discovered
              start.signals
            ≡ ok start.we
          → start.before ≡ take exp calls
          → wrapped_of s calls exp ≡ some start.we
          → IsServed calls exp
      with_factory none q e earlier stands_for = absurd (cc e)
      with_factory (some factory) q e earlier stands_for = record {
        we = start.we;
        stands_for = stands_for;
        cfg = start.cfg;
        discovered = start.discovered;
        signals = start.signals;
        factory = factory;
        is_factory =
            ap (λ (b : List RunnerCall). s.get_factory b start.cfg.id.kind) (sym earlier) ∙ q;
        is_run =
            subst
              (λ (b : List RunnerCall).
                IsRun (s.start_exporter b) s.to_text s.quote s.id_text s.merge
                  (new_exporter_runner s.params) factory start.cfg start.discovered start.signals
                  start.we)
              earlier
              (run_start-ok (s.start_exporter start.before) s.to_text s.quote s.id_text s.merge
                (new_exporter_runner s.params) factory start.cfg start.discovered start.signals
                start.we e);
        once = once;
        not_stopped = not_stopped;
      }

  module _ (composite : Value → Text) (eval : Text → Fields → Evaluated) where
    -- With the runner of exporter_runner.go, after any history of notifications that leaves fewer
    -- than 2^64 exporters: what Route returns for a resource is a wrapped exporter that the runner
    -- has made, with an exporter for one signal at least, none of which failed to start; it has been
    -- started exactly once, and has not been shut down.
    pub route-IsServed :
        (templates : List ExporterTemplate) (rules : List RoutingRule) (telemetry : Bool)
        (ns : List Notification) (attribute : Text → Option Text) (exp : ℕ)
        → let oh =
            notify_all composite eval
              (exporter_runner s)
              templates
              (new_observer_handler (new_telemetry_router rules telemetry))
              ns in
          length (values oh.exporters_by_endpoint) < word
          → In exp (route composite attribute oh.router)
          → IsServed oh.calls exp
    route-IsServed templates rules telemetry ns attribute exp small h =
        let runner = exporter_runner s in
        let router = new_telemetry_router rules telemetry in
        let oh = notify_all composite eval runner templates (new_observer_handler router) ns in
        let (here, running) =
          route-running composite eval runner templates rules telemetry ns attribute exp small h in
        let answered = notify_all-Answered composite eval runner templates router ns in
        let (start, once) = started_once s exp [] oh.calls answered (omega (arith, running)) in
        served oh.calls exp start once (omega (arith, once, running))
