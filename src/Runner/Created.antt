-- ===== src/Runner/Created.antt =====
-- What a start of the runner that succeeds has created.
use exportercreator.Prelude.{
  ℕ, ◌≡◌, ◌↔◌, refl, sym, ap, arith, Bool, true, false, Bool-cases, inl, inr, List, [], ◌∷◌, ◌++◌,
  Option, some, length, ◌=?◌, Text,
}
use exportercreator.Prelude.Outcome.{Outcome, ok, >>=-eq-ok}
use exportercreator.Value.{Value, Fields}
use exportercreator.Component.{ComponentId, Signal, logs, metrics, traces}
use exportercreator.Config.{ExporterConfig, ExporterSignals}
use exportercreator.Wrapped.{WrappedExporter, exporter_for, call_wrapped}
use exportercreator.Runner.{
  Creation, created, not_supported, create_failed, Factory, ExporterRunner, create_runtime_exporter,
  load_runtime_exporter_config, create_one, create_wrapped, handles_nothing, start_created,
  runtime_name, run_start, name_key,
}

abbrev pub is_enabled : Signal → ExporterSignals → Bool
is_enabled logs s = s.logs
is_enabled metrics s = s.metrics
is_enabled traces s = s.traces

create_one_iff :
    (enabled : Bool) (answer : Creation) (errs : List Text) (exp : ℕ)
    → ((create_one enabled answer errs).0 ≡ some exp) ↔ (enabled ≡ true) × (answer ≡ created exp)
unfolding create_one
create_one_iff false answer errs exp = (λ h. absurd cc, λ h. absurd cc)
create_one_iff true (created x) errs exp = (λ h. (refl, cc), λ h. cc)
create_one_iff true not_supported errs exp = (λ h. absurd cc, λ h. absurd cc)
create_one_iff true (create_failed message) errs exp = (λ h. absurd cc, λ h. absurd cc)

-- The exporter of each signal is the one that is created, where the signal is enabled and supported.
abbrev pub IsCreated : (Signal → Creation) → ExporterSignals → WrappedExporter → Type 0
IsCreated creation signals we =
    (signal : Signal) (exp : ℕ)
    → (exporter_for signal we ≡ some exp)
      ↔ (is_enabled signal signals ≡ true) × (creation signal ≡ created exp)

create_wrapped-IsCreated :
    (creation : Signal → Creation) (id : ComponentId) (signals : ExporterSignals)
    → IsCreated creation signals (create_wrapped creation id signals).0
unfolding create_wrapped
create_wrapped-IsCreated creation id signals logs exp =
    create_one_iff signals.logs (creation logs) _ exp
create_wrapped-IsCreated creation id signals metrics exp =
    create_one_iff signals.metrics (creation metrics) _ exp
create_wrapped-IsCreated creation id signals traces exp =
    create_one_iff signals.traces (creation traces) _ exp

module _ (start_exporter : List ℕ → ℕ → Option Text) where
  start_created-ok :
      (p : WrappedExporter × List Text) (we : WrappedExporter)
      → start_created start_exporter p ≡ ok we
      → (we ≡ p.0) × (handles_nothing we ≡ false) × (length (call_wrapped start_exporter we).1 ≡ 0)
  unfolding start_created
  start_created-ok (made, e ∷ errs) we h = absurd (cc h)
  start_created-ok (made, []) we h = elim (Bool-cases (handles_nothing made)) [
    | inl nothing ↦ absurd (cc (rw nothing at h))
    | inr something ↦ elim (Bool-cases (length (call_wrapped start_exporter made).1 =? 0)) [
      | inl fine ↦
          let q : made ≡ we = cc (rw (something, fine) at h) in
          rw (sym q) (refl, something, ground arith)
      | inr failed ↦ absurd (cc (rw (something, failed) at h))
    ]
  ]

  module _ (to_text : Value → Text) (quote : Text → Text) (id_text : ComponentId → Text)
      (merge : Fields → Fields → Outcome Text Fields) where
    -- What the runner has made, with the loaded configuration and its target endpoint: the exporter
    -- of each signal is the one that the factory has created for it, just where the signal is enabled
    -- and supported, from the runner's settings with the exporter's own id, which is also in its log;
    -- one signal at least is handled; and nothing failed to start.
    pub record IsRun (run : ExporterRunner) (factory : Factory) (cfg : ExporterConfig)
        (discovered : Fields) (signals : ExporterSignals) (we : WrappedExporter) : Type 0 where
      pub loaded : ℕ
      pub target : Text
      pub is_loaded :
          load_runtime_exporter_config to_text factory merge cfg.config discovered
          ≡ ok (loaded, target)
      pub kind : we.id.kind ≡ factory.kind
      pub name : we.id.name ≡ runtime_name quote cfg (id_text run.id_namespace) target
      pub is_created :
          IsCreated
            (λ signal.
              factory.create signal
                (record {
                  id = we.id;
                  logger = run.params.logger ++ (name_key, id_text we.id) ∷ [];
                })
                loaded)
            signals
            we
      pub handles : handles_nothing we ≡ false
      pub none_failed : length (call_wrapped start_exporter we).1 ≡ 0

    -- When the runner starts an exporter, its configuration has been merged and loaded; its id names
    -- the template, the runner and the target endpoint; the exporter of each signal is the one that
    -- the factory has created for it from that id, just where the signal is enabled and supported;
    -- one signal at least is handled; and nothing failed to start.
    pub run_start-ok :
        (run : ExporterRunner) (factory : Factory) (cfg : ExporterConfig) (discovered : Fields)
        (signals : ExporterSignals) (we : WrappedExporter)
        → run_start to_text quote id_text merge start_exporter run
            (some factory)
            cfg
            discovered
            signals
          ≡ ok we
        → IsRun run factory cfg discovered signals we
    unfolding run_start create_runtime_exporter create_wrapped
    run_start-ok run factory cfg discovered signals we h =
        let (loaded, first, rest) =
          >>=-eq-ok (load_runtime_exporter_config to_text factory merge cfg.config discovered) _
            h in
        let id : ComponentId = record {
          kind = factory.kind;
          name = runtime_name quote cfg (id_text run.id_namespace) loaded.1;
        } in
        let creation : Signal → Creation =
          λ signal. create_runtime_exporter id_text run.params factory signal id loaded.0 in
        let (same, handles, fine) = start_created-ok (create_wrapped creation id signals) we rest in
        record {
          loaded = loaded.0;
          target = loaded.1;
          is_loaded = first;
          kind = ap (λ (w : WrappedExporter). w.id.kind) same;
          name = ap (λ (w : WrappedExporter). w.id.name) same;
          is_created = rw same (create_wrapped-IsCreated creation id signals);
          handles = handles;
          none_failed = fine;
        }
