-- ===== src/Wrapped.antt =====
-- The exporter that exporter_runner.go wraps around the exporters of the three signals
-- (`wrappedExporter`), and what exporter.go asks of a component: which consumer takes a signal, and
-- whether to warn about a signal that none takes (`warnUnsupportedSignal`).
pub mod Calls
pub mod Tests
use exportercreator.Prelude.{
  ℕ, Bool, true, false, not, List, [], ◌∷◌, ◌++◌, Option, none, some, if◌then◌else◌, nat_Eq, Text,
}
use exportercreator.Prelude.GoMap.{GoMap, lookup, insert}
use exportercreator.Component.{ComponentId, Signal, logs, metrics, traces}

pub record WrappedExporter : Type 0 where
  pub id : ComponentId
  pub logs_exporter : Option ℕ
  pub metrics_exporter : Option ℕ
  pub traces_exporter : Option ℕ

-- The three atomic flags.
pub record Warned : Type 0 where
  pub warned_logs : Bool
  pub warned_metrics : Bool
  pub warned_traces : Bool

-- A component: a wrapped exporter, or another one with the signals that it implements.
pub data Exporter : Type 0 where
  wrapped : WrappedExporter → Exporter
  static : (Signal → Bool) → Exporter

abbrev pub never_warned : Warned
never_warned = record { warned_logs = false; warned_metrics = false; warned_traces = false }

abbrev pub warned_at : Option Warned → Warned
warned_at none = never_warned
warned_at (some w) = w

abbrev pub exporter_for : Signal → WrappedExporter → Option ℕ
exporter_for logs we = we.logs_exporter
exporter_for metrics we = we.metrics_exporter
exporter_for traces we = we.traces_exporter

-- `firstUnsupported`: a swap of the signal's flag
unfoldable pub first_unsupported : Signal → Warned → Bool × Warned
first_unsupported logs w = (not w.warned_logs, record w { warned_logs = true })
first_unsupported metrics w = (not w.warned_metrics, record w { warned_metrics = true })
first_unsupported traces w = (not w.warned_traces, record w { warned_traces = true })

-- The type switch: a wrapped exporter's own exporter of the signal, or a component that implements
-- the signal itself.
unfoldable pub consumer_of : Signal → ℕ → Exporter → Option ℕ
consumer_of signal exp (wrapped we) = exporter_for signal we
consumer_of signal exp (static handles) = if handles signal then some exp else none

-- `defaultExp.(exporter.Logs)`: a wrapped exporter implements no signal.
unfoldable pub handles_itself : Signal → Exporter → Bool
handles_itself signal (wrapped we) = false
handles_itself signal (static handles) = handles signal

-- The flags of the wrapped exporters, and the warnings that have been logged.
pub record Warnings : Type 0 where
  pub flags : GoMap ℕ Warned
  pub logged : List (ℕ × Signal)

-- `warnUnsupportedSignal`
unfoldable pub warn_unsupported_signal : ℕ → Exporter → Signal → Warnings → Warnings
unfolding first_unsupported
warn_unsupported_signal exp (static handles) signal w = w
warn_unsupported_signal exp (wrapped we) signal w =
    let (first, flags') = first_unsupported signal (warned_at (lookup exp w.flags)) in
    record {
      flags = insert exp flags' w.flags;
      logged = if first then w.logged ++ (exp, signal) ∷ [] else w.logged;
    }

module _ (call : List ℕ → ℕ → Option Text) where
  -- the body of the loops of `Start` and `Shutdown`, with the calls and the errors so far
  unfoldable pub call_exporter : Option ℕ → List ℕ × List Text → List ℕ × List Text
  call_exporter none (calls, errs) = (calls, errs)
  call_exporter (some x) (calls, errs) =
      (calls ++ x ∷ [], elim (call calls x) [ none ↦ errs | some message ↦ errs ++ message ∷ [] ])

  -- `wrappedExporter.Start` and `wrappedExporter.Shutdown`, by what `call` does for one exporter
  unfoldable pub call_wrapped : WrappedExporter → List ℕ × List Text
  unfolding call_exporter
  call_wrapped w =
      call_exporter w.traces_exporter
        (call_exporter w.metrics_exporter (call_exporter w.logs_exporter ([], [])))
