-- ===== src/Handler/Leaks.antt =====
-- No exporter leaks: every exporter that was started is in the map or has been shut down, and
-- `shutdown` stops those in the map.
use exportercreator.Prelude.{
  ℕ, ◌+◌, ◌≡◌, refl, ap, ◌∙◌, arith, List, [], ◌∷◌, ◌++◌, Bool-cases, inl, inr, ltb, length,
  sum_by-append, Text, nat_Eq, text_Eq,
}
use exportercreator.Prelude.Outcome.{Outcome, ok, err}
use exportercreator.Prelude.MultiMap.{hit}
use exportercreator.Value.{Value, Fields}
use exportercreator.Component.{Endpoint}
use exportercreator.ExporterMap.{ExporterMap, get, remove_all, values}
use exportercreator.Router.{TelemetryRouter}
use exportercreator.Expansion.{Evaluated}
use exportercreator.Config.{ExporterConfig, ExporterTemplate}
use exportercreator.Handler.{
  ObserverHandler, Runner, started, new_observer_handler, register, run_exporter, stop_exporter,
  forget, remove_endpoint, shutdown_each, shutdown_all, shutdown,
}
use exportercreator.Handler.InStep.{put-Distinct, remove_all-Distinct}
use exportercreator.Handler.History.{Notification, notify_all, notify_all_kept}
use exportercreator.Handler.Calls.{
  occurrences, start_of, stop_of, times_started, times_stopped, occurrences-put,
  occurrences-remove_all, IsAccounted, Stops, Stops-step, Stops-none, stop_each-Stops,
}

module _ (composite : Value → Text) (eval : Text → Fields → Evaluated) (runner : Runner) where
  register-IsAccounted :
      (template : ExporterTemplate) (env : Fields) (e : Endpoint) (answer : Outcome Text ℕ)
      (cfg : ExporterConfig) (discovered : Fields) (oh : ObserverHandler)
      → IsAccounted oh
      → IsAccounted (
          register composite eval runner template env e answer
            (record oh { calls = oh.calls ++ started cfg discovered template.signals answer ∷ [] }))
  unfolding register
  register-IsAccounted template env e (err message) cfg discovered oh p =
      let call = started cfg discovered template.signals (err message) in
      record {
        distinct = p.distinct;
        accounted = λ n. omega (
          arith,
          p.accounted n,
          sum_by-append (start_of n) oh.calls (call ∷ []),
          sum_by-append (stop_of n) oh.calls (call ∷ []),
        );
      }
  register-IsAccounted template env e (ok exp) cfg discovered oh p =
      let call = started cfg discovered template.signals (ok exp) in
      record {
        distinct = put-Distinct e.id exp oh.exporters_by_endpoint p.distinct;
        accounted = λ n. omega (
          arith,
          p.accounted n,
          sum_by-append (start_of n) oh.calls (call ∷ []),
          sum_by-append (stop_of n) oh.calls (call ∷ []),
          occurrences-put n e.id exp oh.exporters_by_endpoint,
        );
      }

  run_exporter-IsAccounted :
      (template : ExporterTemplate) (env : Fields) (e : Endpoint) (configs : Fields × Fields)
      (oh : ObserverHandler)
      → IsAccounted oh
      → IsAccounted (run_exporter composite eval runner template env e configs oh)
  unfolding run_exporter
  run_exporter-IsAccounted template env e (resolved, discovered) oh p =
      register-IsAccounted template env e _ _ discovered oh p

  remove_endpoint-IsAccounted :
      (e : Endpoint) (oh : ObserverHandler)
      → IsAccounted oh
      → IsAccounted (remove_endpoint runner e oh)
  unfolding remove_endpoint forget
  remove_endpoint-IsAccounted e oh p =
      let exps = get e.id oh.exporters_by_endpoint in
      let s = stop_each-Stops runner exps oh in
      elim (Bool-cases (ltb 0 (length exps))) [
        | inl running ↦ rw running (record {
          distinct = remove_all-Distinct e.id _ (rw s.same_map p.distinct);
          accounted = λ n. omega (
            arith,
            p.accounted n,
            s.starts n,
            s.stops n,
            occurrences-remove_all n e.id oh.exporters_by_endpoint p.distinct,
            ap (λ em. occurrences n (values (remove_all e.id em))) s.same_map,
          );
        })
        | inr idle ↦ rw idle p
      ]

  notify_all-IsAccounted :
      (templates : List ExporterTemplate) (router : TelemetryRouter) (ns : List Notification)
      → IsAccounted (notify_all composite eval runner templates (new_observer_handler router) ns)
  unfolding new_observer_handler values
  notify_all-IsAccounted templates router ns =
      notify_all_kept composite eval runner templates {P = IsAccounted}
        (record { running = run_exporter-IsAccounted; removing = remove_endpoint-IsAccounted }) ns
        (new_observer_handler router) (record { distinct = tt; accounted = λ n. refl })

  -- After any history of notifications on a new handler, every exporter is in the map as often as it
  -- has been started and not been shut down.
  pub notify_all-accounted :
      (templates : List ExporterTemplate) (router : TelemetryRouter) (ns : List Notification)
      (n : ℕ)
      → let oh = notify_all composite eval runner templates (new_observer_handler router) ns in
        times_started n oh.calls
        ≡ occurrences n (values oh.exporters_by_endpoint) + times_stopped n oh.calls
  unfolding new_observer_handler values
  notify_all-accounted templates router ns n =
      (notify_all-IsAccounted templates router ns).accounted n

  shutdown_each-Stops :
      (id : Text) (exps : List ℕ) (errs : List (Text × Text)) (oh : ObserverHandler)
      → Stops exps oh (shutdown_each runner id exps errs oh).1
  unfolding shutdown_each
  shutdown_each-Stops id [] errs oh = Stops-none oh
  shutdown_each-Stops id (exp ∷ exps) errs oh =
      Stops-step runner exp exps oh _ (shutdown_each-Stops id exps _ (stop_exporter runner exp oh))

  shutdown_all-Stops :
      (em : ExporterMap) (errs : List (Text × Text)) (oh : ObserverHandler)
      → Stops (values em) oh (shutdown_all runner em errs oh).1
  unfolding shutdown_all values
  shutdown_all-Stops [] errs oh = Stops-none oh
  shutdown_all-Stops ((id, exps) ∷ em) errs oh =
      let (errs', oh') = shutdown_each runner id exps errs oh in
      let p : Stops exps oh oh' = shutdown_each-Stops id exps errs oh in
      let q = shutdown_all-Stops em errs' oh' in
      record {
        same_map = q.same_map ∙ p.same_map;
        starts = λ n. q.starts n ∙ p.starts n;
        stops = λ n. omega (arith, q.stops n, p.stops n, sum_by-append (hit n) exps (values em));
      }

  -- Once a handler has been shut down after any history of notifications, every exporter has been
  -- shut down as often as it has been started.
  pub shutdown-stops_all :
      (templates : List ExporterTemplate) (router : TelemetryRouter) (ns : List Notification)
      (n : ℕ)
      → let oh = notify_all composite eval runner templates (new_observer_handler router) ns in
        let (errs, after) = shutdown runner oh in
        times_stopped n after.calls ≡ times_started n after.calls
  unfolding shutdown
  shutdown-stops_all templates router ns n =
      let oh = notify_all composite eval runner templates (new_observer_handler router) ns in
      let s = shutdown_all-Stops oh.exporters_by_endpoint [] oh in
      omega (arith, s.stops n, s.starts n, (notify_all-IsAccounted templates router ns).accounted n)
