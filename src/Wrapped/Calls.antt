-- ===== src/Wrapped/Calls.antt =====
-- `Start` and `Shutdown` of a wrapped exporter reach the exporters of all three signals.
use exportercreator.Prelude.{
  ℕ, ◌≡◌, refl, ap, sym, ◌∙◌, List, [], ◌∷◌, ◌++◌, Option, none, some, Text,
}
use mathlib.Core.List.{append-nil, append_assoc}
use exportercreator.Wrapped.{WrappedExporter, call_exporter, call_wrapped}

-- the exporters of the signals that there are
abbrev pub if_there : Option ℕ → List ℕ
if_there none = []
if_there (some x) = x ∷ []

abbrev pub exporters_in : WrappedExporter → List ℕ
exporters_in w =
    if_there w.logs_exporter ++ if_there w.metrics_exporter ++ if_there w.traces_exporter

abbrev message_of : Option Text → List Text
message_of none = []
message_of (some message) = message ∷ []

module _ (call : List ℕ → ℕ → Option Text) where
  -- the errors of a list of calls, each after those before it
  abbrev pub errors_from : List ℕ → List ℕ → List Text
  errors_from calls [] = []
  errors_from calls (x ∷ xs) = message_of (call calls x) ++ errors_from (calls ++ x ∷ []) xs

  errors_from-append :
      (calls xs ys : List ℕ)
      → errors_from calls (xs ++ ys) ≡ errors_from calls xs ++ errors_from (calls ++ xs) ys
  errors_from-append calls [] ys = rw append-nil
  errors_from-append calls (x ∷ xs) ys =
      ap (λ zs. message_of (call calls x) ++ zs)
        (errors_from-append (calls ++ x ∷ []) xs ys
          ∙ ap (λ c. errors_from (calls ++ x ∷ []) xs ++ errors_from c ys)
              (append_assoc calls (x ∷ []) xs))
      ∙ sym (append_assoc (message_of (call calls x)) (errors_from (calls ++ x ∷ []) xs) _)

  answered :
      (o : Option Text) (errs : List Text)
      → (elim o as (λ a. List Text) [ none ↦ errs | some message ↦ errs ++ message ∷ [] ])
        ≡ errs ++ message_of o
  answered none errs = sym (append-nil errs)
  answered (some message) errs = refl

  call_exporter-eq :
      (o : Option ℕ) (calls : List ℕ) (errs : List Text)
      → call_exporter call o (calls, errs)
        ≡ (calls ++ if_there o, errs ++ errors_from calls (if_there o))
  unfolding call_exporter
  call_exporter-eq none calls errs = cc (append-nil calls, append-nil errs)
  call_exporter-eq (some x) calls errs =
      ap (λ es. (calls ++ x ∷ [], es)) (answered (call calls x) errs ∙ rw append-nil)

  -- Each exporter that there is is called once, in the order logs, metrics, traces, whether or not
  -- those before it fail, and the errors are those of all of them.
  pub call_wrapped_lem :
      (w : WrappedExporter)
      → call_wrapped call w ≡ (exporters_in w, errors_from [] (exporters_in w))
  unfolding call_wrapped
  call_wrapped_lem w =
      let ls = if_there w.logs_exporter in
      let ms = if_there w.metrics_exporter in
      let ts = if_there w.traces_exporter in
      let on_logs = errors_from [] ls in
      let on_metrics = errors_from ls ms in
      let on_traces = errors_from (ls ++ ms) ts in
      ap (λ p. call_exporter call w.traces_exporter (call_exporter call w.metrics_exporter p))
        (call_exporter-eq w.logs_exporter [] [])
      ∙ ap (call_exporter call w.traces_exporter) (call_exporter-eq w.metrics_exporter ls on_logs)
      ∙ call_exporter-eq w.traces_exporter (ls ++ ms) (on_logs ++ on_metrics)
      ∙ cc (
        append_assoc ls ms ts,
        append_assoc on_logs on_metrics on_traces,
        errors_from-append [] ls (ms ++ ts),
        errors_from-append ls ms ts,
      )
