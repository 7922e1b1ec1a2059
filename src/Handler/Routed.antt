-- ===== src/Handler/Routed.antt =====
-- Telemetry is routed to running exporters only: the handler's calls of the runner against what Route
-- returns.
use exportercreator.Prelude.{
  ℕ, ◌<◌, ◌≤◌, ◌≡◌, ap, sym, arith, List, [], ◌∷◌, Bool, Bool-cases, inl, inr, Option, length,
  nat_Eq, Text, text_Eq, ◌==◌, word,
}
use exportercreator.Prelude.Member.{In, first, later, In-append_left, In-append_right}
use exportercreator.Prelude.GoMap.{lookup}
use exportercreator.Prelude.MultiMap.{hit}
use exportercreator.Value.{Value, Fields}
use exportercreator.ExporterMap.{ExporterMap, get, values}
use exportercreator.Router.{RoutingRule, RoutedExporter, new_telemetry_router, route}
use exportercreator.Router.Route.{route_iff, select-In}
use exportercreator.Expansion.{Evaluated}
use exportercreator.Config.{ExporterTemplate}
use exportercreator.Handler.{Runner, new_observer_handler}
use exportercreator.Handler.History.{Notification, notify_all}
use exportercreator.Handler.InStep.{exporters_of, notify_all-IsInStep}
use exportercreator.Handler.Calls.{occurrences, times_started, times_stopped}
use exportercreator.Handler.Leaks.{notify_all-accounted}

exporters_of-In :
    (re : RoutedExporter) (res : List RoutedExporter)
    → In re res
    → In re.exporter (exporters_of res)
exporters_of-In re (x ∷ res) (first e) = first (ap (λ (y : RoutedExporter). y.exporter) e)
exporters_of-In re (x ∷ res) (later h) = later (exporters_of-In re res h)
exporters_of-In re [] h = elim h [ ]

get-In : (id : Text) (exp : ℕ) (em : ExporterMap) → In exp (get id em) → In exp (values em)
unfolding get values lookup
get-In id exp [] h = elim h [ ]
get-In id exp ((j, exps) ∷ em) h = elim (Bool-cases (j == id)) [
  | inl same ↦ In-append_left (values em) (rw same at h)
  | inr apart ↦ In-append_right exps (get-In id exp em (rw apart at h))
]

occurrences-In : (exp : ℕ) (xs : List ℕ) → In exp xs → 1 ≤ occurrences exp xs
occurrences-In exp (x ∷ xs) (first e) = let q : hit exp x ≡ 1 = ground arith in omega arith
occurrences-In exp (x ∷ xs) (later h) = omega (arith, occurrences-In exp xs h)
occurrences-In exp [] h = elim h [ ]

module _ (composite : Value → Text) (eval : Text → Fields → Evaluated) (runner : Runner) where
  -- After any history of notifications that leaves fewer than 2^64 exporters, every exporter that
  -- Route returns for a resource stands in the handler's map for an endpoint, and has been started
  -- more often than it has been shut down: no telemetry is routed to an exporter that is stopped.
  pub route-running :
      (templates : List ExporterTemplate) (rules : List RoutingRule) (telemetry : Bool)
      (ns : List Notification) (attribute : Text → Option Text) (exp : ℕ)
      → let oh =
          notify_all composite eval runner templates
            (new_observer_handler (new_telemetry_router rules telemetry))
            ns in
        length (values oh.exporters_by_endpoint) < word
        → In exp (route composite attribute oh.router)
        → ((id : Text) × In exp (get id oh.exporters_by_endpoint))
          × (times_stopped exp oh.calls < times_started exp oh.calls)
  route-running templates rules telemetry ns attribute exp small h =
      let start = new_telemetry_router rules telemetry in
      let oh = notify_all composite eval runner templates (new_observer_handler start) ns in
      let (live, s) = notify_all-IsInStep composite eval runner templates rules telemetry ns in
      let few : length live < word = omega (arith, s.sized) in
      let (id, re, at, e, m) =
        (route_iff composite attribute oh.router live s.represents few exp).0 h in
      let within = exporters_of-In re _ ((select-In id re live).1 at) in
      let here : In exp (get id oh.exporters_by_endpoint) = rw (sym e, s.holds id) within in
      let there = occurrences-In exp _ (get-In id exp oh.exporters_by_endpoint here) in
      (
        (id, here),
        omega (arith, there, notify_all-accounted composite eval runner templates start ns exp),
      )
