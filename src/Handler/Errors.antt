-- ===== src/Handler/Errors.antt =====
-- The errors that `shutdown` collects.
use exportercreator.Prelude.{
  ℕ, ◌+◌, ◌≡◌, refl, arith, List, [], ◌∷◌, ◌++◌, Option, none, some, length, length-append,
  sum_by-append, Text,
}
use exportercreator.ExporterMap.{ExporterMap}
use exportercreator.Handler.{
  ObserverHandler, Runner, stopped, stop_exporter, shutdown_each, shutdown_all, shutdown,
}
use exportercreator.Handler.Calls.{failed_stop, failed_stops}

module _ (runner : Runner) where
  -- what one exporter adds to the errors
  abbrev added_errors : Text → Option Text → List (Text × Text) → List (Text × Text)
  added_errors id answer errs = elim answer [
    | none ↦ errs
    | some message ↦ errs ++ (id, message) ∷ []
  ]

  length-added_errors :
      (id : Text) (exp : ℕ) (answer : Option Text) (errs : List (Text × Text))
      → length (added_errors id answer errs) ≡ length errs + failed_stop (stopped exp answer)
  length-added_errors id exp none errs = omega arith
  length-added_errors id exp (some message) errs =
      omega (arith, length-append errs ((id, message) ∷ []))

  shutdown_each-errors :
      (id : Text) (exps : List ℕ) (errs : List (Text × Text)) (oh : ObserverHandler)
      → let (errs', oh') = shutdown_each runner id exps errs oh in
        length errs' + failed_stops oh.calls ≡ length errs + failed_stops oh'.calls
  unfolding shutdown_each stop_exporter
  shutdown_each-errors id [] errs oh = refl
  shutdown_each-errors id (exp ∷ exps) errs oh =
      let answer = runner.shutdown oh.calls exp in
      omega (
        arith,
        shutdown_each-errors id exps (added_errors id answer errs) (stop_exporter runner exp oh),
        length-added_errors id exp answer errs,
        sum_by-append failed_stop oh.calls (stopped exp answer ∷ []),
      )

  shutdown_all-errors :
      (em : ExporterMap) (errs : List (Text × Text)) (oh : ObserverHandler)
      → let (errs', oh') = shutdown_all runner em errs oh in
        length errs' + failed_stops oh.calls ≡ length errs + failed_stops oh'.calls
  unfolding shutdown_all
  shutdown_all-errors [] errs oh = refl
  shutdown_all-errors ((id, exps) ∷ em) errs oh =
      let (errs', oh') = shutdown_each runner id exps errs oh in
      omega (arith, shutdown_each-errors id exps errs oh, shutdown_all-errors em errs' oh')

  -- `shutdown` returns one error for each exporter that the runner fails to shut down in it.
  pub shutdown-errors :
      (oh : ObserverHandler)
      → let (errs, after) = shutdown runner oh in
        failed_stops after.calls ≡ failed_stops oh.calls + length errs
  unfolding shutdown
  shutdown-errors oh = omega (arith, shutdown_all-errors oh.exporters_by_endpoint [] oh)
