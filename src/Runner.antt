-- ===== src/Runner.antt =====
-- The runner of exporter_runner.go. The host's factory is a record of what the program asks of it;
-- `to_text` stands for cast.ToString, `quote` for the `%q` of an endpoint, `id_text` for String of a
-- component id, and `merge` for confmap's Merge.
pub mod Merged
pub mod Created
pub mod Endpoint
pub mod Serving
mod Once
pub mod Served
pub mod Tests
use exportercreator.Prelude.{
  ℕ, Bool, true, false, ◌&&◌, not, List, [], ◌∷◌, ◌++◌, Option, none, some, if◌then◌else◌, length,
  ◌=?◌, Text, text_Eq, ◌==◌,
}
use exportercreator.Prelude.Outcome.{Outcome, ok, err, ◌>>=◌}
use exportercreator.Value.{Value, Fields, at_key, remove}
use exportercreator.Component.{ComponentId, Signal, logs, metrics, traces}
use exportercreator.Config.{ExporterConfig, ExporterSignals}
use exportercreator.Handler.{endpoint_config_key, tmp_set_endpoint_config_key, has_key}
use exportercreator.Wrapped.{WrappedExporter, call_wrapped}

-- What a factory answers when it is asked for an exporter of a signal.
pub data Creation : Type 0 where
  created : ℕ → Creation
  not_supported : Creation
  create_failed : Text → Creation

-- What a runner is made with, and of which each exporter gets a copy; `logger` has the fields of the
-- logger.
pub record ExporterSettings : Type 0 where
  pub id : ComponentId
  pub logger : List (Text × Text)

pub record ExporterRunner : Type 0 where
  pub params : ExporterSettings
  pub id_namespace : ComponentId

unfoldable pub new_exporter_runner : ExporterSettings → ExporterRunner
new_exporter_runner params = record { params = params; id_namespace = params.id }

pub record Factory : Type 0 where
  pub kind : Text
  -- whether the default configuration takes an endpoint
  pub accepts_endpoint : Text → Bool
  -- the default configuration with a merged one loaded into it and validated, by its reference
  pub load : Fields → Outcome Text ℕ
  pub create : Signal → ExporterSettings → ℕ → Creation

pub data RunnerError : Type 0 where
  no_factory no_signal : RunnerError
  merge_failed load_failed : Text → RunnerError
  creating_failed starting_failed : List Text → RunnerError

module _ (to_text : Value → Text) (factory : Factory) where
  unfoldable pub template_target : Fields → Text
  unfolding at_key
  template_target templated = to_text (at_key endpoint_config_key templated)

  unfoldable pub template_has_endpoint : Fields → Bool
  unfolding template_target
  template_has_endpoint templated =
      let target = template_target templated in
      not (length target =? 0) && not (target == b'0' ∷ [])

  -- The target endpoint, and what is left of the discovered configuration for the merge.
  unfoldable pub for_merge : Fields → Fields → Text × Fields
  unfolding template_has_endpoint has_key remove
  for_merge templated discovered =
      if has_key tmp_set_endpoint_config_key discovered
      then (let unmarked = remove tmp_set_endpoint_config_key discovered in
          if not (template_has_endpoint templated)
          then (let target = to_text (at_key endpoint_config_key unmarked) in
              (
                target,
                if factory.accepts_endpoint target
                    then unmarked
                    else remove endpoint_config_key unmarked,
              ))
          else (template_target templated, remove endpoint_config_key unmarked))
      else (template_target templated, discovered)

  module _ (merge : Fields → Fields → Outcome Text Fields) where
    abbrev pub as_error :
        {A : Type 0} → (Text → RunnerError) → Outcome Text A → Outcome RunnerError A
    as_error f (ok a) = ok a
    as_error f (err message) = err (f message)

    -- `loadRuntimeExporterConfig`: the configuration and the target endpoint
    unfoldable pub load_runtime_exporter_config : Fields → Fields → Outcome RunnerError (ℕ × Text)
    unfolding for_merge
    load_runtime_exporter_config templated discovered = do
      let (target, rest) = for_merge templated discovered
      merged ← as_error merge_failed (merge templated rest)
      cfg ← as_error load_failed (factory.load merged)
      ok (cfg, target)

-- One signal: its exporter, if it is enabled and supported, and the errors so far.
unfoldable pub create_one : Bool → Creation → List Text → Option ℕ × List Text
create_one false answer errs = (none, errs)
create_one true (created exp) errs = (some exp, errs)
create_one true not_supported errs = (none, errs)
create_one true (create_failed message) errs = (none, errs ++ message ∷ [])

abbrev pub name_key : Text
name_key = b'n' ∷ b'a' ∷ b'm' ∷ b'e' ∷ []

-- `createLogsRuntimeExporter`, `createMetricsRuntimeExporter`, `createTracesRuntimeExporter`
unfoldable pub create_runtime_exporter :
    (ComponentId → Text) → ExporterSettings → Factory → Signal → ComponentId → ℕ → Creation
create_runtime_exporter id_text params factory signal id cfg =
    let run_params : ExporterSettings = record params {
      id = id;
      logger = params.logger ++ (name_key, id_text id) ∷ [];
    } in
    factory.create signal run_params cfg

-- The three signals, in order.
unfoldable pub create_wrapped :
    (Signal → Creation) → ComponentId → ExporterSignals → WrappedExporter × List Text
unfolding create_one
create_wrapped creation id signals =
    let (on_logs, errs) = create_one signals.logs (creation logs) [] in
    let (on_metrics, errs') = create_one signals.metrics (creation metrics) errs in
    let (on_traces, errs'') = create_one signals.traces (creation traces) errs' in
    (
      record {
        id = id;
        logs_exporter = on_logs;
        metrics_exporter = on_metrics;
        traces_exporter = on_traces;
      },
      errs'',
    )

unfoldable pub is_none : Option ℕ → Bool
is_none none = true
is_none (some exp) = false

unfoldable pub handles_nothing : WrappedExporter → Bool
unfolding is_none
handles_nothing we =
    is_none we.logs_exporter && is_none we.metrics_exporter && is_none we.traces_exporter

-- The end of `start`, from what was created to what was started.
unfoldable pub start_created :
    (List ℕ → ℕ → Option Text) → WrappedExporter × List Text → Outcome RunnerError WrappedExporter
unfolding handles_nothing call_wrapped
start_created start_exporter (we, e ∷ errs) = err (creating_failed (e ∷ errs))
start_created start_exporter (we, []) =
    let (calls, failed) = call_wrapped start_exporter we in
    if handles_nothing we
    then err no_signal
    else if length failed =? 0
    then ok we
    else err (starting_failed failed)

-- The name of the runtime exporter, such as `name/exporter_creator{endpoint="host:4317"}/pod-1`.
unfoldable pub runtime_name : (Text → Text) → ExporterConfig → Text → Text → Text
runtime_name quote cfg id_namespace target =
    cfg.id.name
    ++ b'/' ∷ id_namespace
    ++ b'{' ∷ b'e' ∷ b'n' ∷ b'd' ∷ b'p' ∷ b'o' ∷ b'i' ∷ b'n' ∷ b't' ∷ b'=' ∷ quote target
    ++ b'}' ∷ b'/' ∷ cfg.endpoint_id

module _ (to_text : Value → Text) (quote : Text → Text) (id_text : ComponentId → Text)
    (merge : Fields → Fields → Outcome Text Fields)
    (start_exporter : List ℕ → ℕ → Option Text) where
  -- `exporterRunner.start`, for the factory that the host has for the type
  unfoldable pub run_start :
      ExporterRunner
      → Option Factory
      → ExporterConfig
      → Fields
      → ExporterSignals
      → Outcome RunnerError WrappedExporter
  unfolding load_runtime_exporter_config create_runtime_exporter create_wrapped start_created
      runtime_name
  run_start run none cfg discovered signals = err no_factory
  run_start run (some factory) cfg discovered signals = do
    (loaded, target) ← load_runtime_exporter_config to_text factory merge cfg.config discovered
    let id : ComponentId = record {
      kind = factory.kind;
      name = runtime_name quote cfg (id_text run.id_namespace) target;
    }
    let creation : Signal → Creation =
        λ signal. create_runtime_exporter id_text run.params factory signal id loaded
    start_created start_exporter (create_wrapped creation id signals)
