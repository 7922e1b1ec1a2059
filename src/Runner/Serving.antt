-- ===== src/Runner/Serving.antt =====
-- The runner of exporter_runner.go behind the interface that the handler has of it: `start` and
-- `shutdown` of `exporterRunner`. A started exporter is a new `wrappedExporter`; its reference is the
-- number of calls before it was started.
use exportercreator.Prelude.{
  ℕ, List, Option, none, some, if◌then◌else◌, length, ◌=?◌, Text, take, get_elem?,
}
use exportercreator.Prelude.Outcome.{Outcome, ok, err}
use exportercreator.Value.{Value, Fields}
use exportercreator.Component.{ComponentId}
use exportercreator.Config.{ExporterConfig, ExporterSignals}
use exportercreator.Handler.{Runner, RunnerCall, started, stopped}
use exportercreator.Wrapped.{WrappedExporter, call_wrapped}
use exportercreator.Runner.{ExporterSettings, Factory, RunnerError, new_exporter_runner, run_start}

-- What the runner is given: the functions of other packages, its settings, the factory that the host
-- has for a type of component, what the exporters of the signals answer to Start and Shutdown, and
-- the texts of its errors. All answers may depend on the calls before.
pub record Surroundings : Type 0 where
  pub to_text : Value → Text
  pub quote : Text → Text
  pub merge : Fields → Fields → Outcome Text Fields
  pub id_text : ComponentId → Text
  pub params : ExporterSettings
  pub get_factory : List RunnerCall → Text → Option Factory
  pub start_exporter : List RunnerCall → List ℕ → ℕ → Option Text
  pub shutdown_exporter : List RunnerCall → List ℕ → ℕ → Option Text
  pub error_text : RunnerError → Text
  pub combine : List Text → Text

module _ (s : Surroundings) where
  -- `exporterRunner.start` after the given calls
  unfoldable pub start_wrapped :
      List RunnerCall
      → ExporterConfig
      → Fields
      → ExporterSignals
      → Outcome RunnerError WrappedExporter
  unfolding new_exporter_runner run_start
  start_wrapped calls cfg discovered signals =
      run_start s.to_text s.quote s.id_text s.merge (s.start_exporter calls)
        (new_exporter_runner s.params) (s.get_factory calls cfg.id.kind) cfg discovered signals

  unfoldable pub reference_of : ℕ → Outcome RunnerError WrappedExporter → Outcome Text ℕ
  reference_of n (ok we) = ok n
  reference_of n (err e) = err (s.error_text e)

  unfoldable pub started_by : Outcome RunnerError WrappedExporter → Option WrappedExporter
  started_by (ok we) = some we
  started_by (err e) = none

  -- what a call has made, given the calls before it
  unfoldable pub made_by : List RunnerCall → Option RunnerCall → Option WrappedExporter
  unfolding start_wrapped started_by
  made_by before (some (started cfg discovered signals answer)) =
      started_by (start_wrapped before cfg discovered signals)
  made_by before (some (stopped exp answer)) = none
  made_by before none = none

  -- the wrapped exporter that a reference stands for
  unfoldable pub wrapped_of : List RunnerCall → ℕ → Option WrappedExporter
  unfolding made_by
  wrapped_of calls exp = made_by (take exp calls) (get_elem? calls exp)

  -- `exporterRunner.shutdown`: a reference to nothing that was started is never given to it
  unfoldable pub shutdown_wrapped : List RunnerCall → Option WrappedExporter → Option Text
  unfolding call_wrapped
  shutdown_wrapped calls none = none
  shutdown_wrapped calls (some we) =
      let (called, failed) = call_wrapped (s.shutdown_exporter calls) we in
      if length failed =? 0 then none else some (s.combine failed)

  abbrev pub exporter_runner : Runner
  exporter_runner = record {
    start = λ calls cfg discovered signals.
        reference_of (length calls) (start_wrapped calls cfg discovered signals);
    shutdown = λ calls exp. shutdown_wrapped calls (wrapped_of calls exp);
  }
