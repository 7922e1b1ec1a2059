-- ===== src/Handler/Answered.antt =====
-- The log of the handler's calls of the runner: every answer in it is the runner's, given the calls
-- before.
use mathlib.Core.Path.{subst}
use mathlib.Core.List.{append_assoc, append-nil}
use exportercreator.Prelude.{
  ℕ, ◌≡◌, refl, sym, nat_Eq, text_Eq, Bool-cases, inl, inr, ltb, List, [], ◌∷◌, ◌++◌, length, Text,
}
use exportercreator.Prelude.Outcome.{Outcome, ok, err}
use exportercreator.Value.{Value, Fields}
use exportercreator.Component.{Endpoint}
use exportercreator.ExporterMap.{get}
use exportercreator.Router.{TelemetryRouter}
use exportercreator.Expansion.{Evaluated}
use exportercreator.Config.{ExporterTemplate}
use exportercreator.Handler.{
  ObserverHandler, Runner, RunnerCall, started, stopped, new_observer_handler, register,
  run_exporter, stop_exporter, stop_each, forget, remove_endpoint,
}
use exportercreator.Handler.History.{Notification, notify_all, notify_all_kept}

module _ (runner : Runner) where
  -- the calls after the first ones
  abbrev pub Answered : List RunnerCall → List RunnerCall → Type 0
  Answered before [] = Unit
  Answered before (started cfg discovered signals answer ∷ calls) =
      (runner.start before cfg discovered signals ≡ answer)
      × Answered (before ++ started cfg discovered signals answer ∷ []) calls
  Answered before (stopped exp answer ∷ calls) =
      (runner.shutdown before exp ≡ answer) × Answered (before ++ stopped exp answer ∷ []) calls

  regrouped :
      (before : List RunnerCall) (call : RunnerCall) (calls more : List RunnerCall)
      → Answered (before ++ call ∷ calls) more
      → Answered ((before ++ call ∷ []) ++ calls) more
  regrouped before call calls more k =
      subst (λ (b : List RunnerCall). Answered b more) (sym (append_assoc before (call ∷ []) calls))
        k

  pub Answered-append :
      (before calls more : List RunnerCall)
      → Answered before calls
      → Answered (before ++ calls) more
      → Answered before (calls ++ more)
  Answered-append before [] more h k =
      subst (λ (b : List RunnerCall). Answered b more) (append-nil before) k
  Answered-append before (started cfg discovered signals answer ∷ calls) more (e, h) k = (
    e,
    Answered-append (before ++ started cfg discovered signals answer ∷ []) calls more h
        (regrouped before (started cfg discovered signals answer) calls more k),
  )
  Answered-append before (stopped exp answer ∷ calls) more (e, h) k = (
    e,
    Answered-append (before ++ stopped exp answer ∷ []) calls more h
        (regrouped before (stopped exp answer) calls more k),
  )

  stop_each-Answered :
      (exps : List ℕ) (oh : ObserverHandler)
      → Answered [] oh.calls
      → Answered [] (stop_each runner exps oh).calls
  unfolding stop_each stop_exporter
  stop_each-Answered [] oh h = h
  stop_each-Answered (exp ∷ exps) oh h =
      stop_each-Answered exps (stop_exporter runner exp oh)
        (Answered-append [] oh.calls _ h (refl, tt))

  remove_endpoint-Answered :
      (e : Endpoint) (oh : ObserverHandler)
      → Answered [] oh.calls
      → Answered [] (remove_endpoint runner e oh).calls
  unfolding remove_endpoint forget
  remove_endpoint-Answered e oh h =
      let exps = get e.id oh.exporters_by_endpoint in
      elim (Bool-cases (ltb 0 (length exps))) [
        | inl running ↦ rw running (stop_each-Answered exps oh h)
        | inr idle ↦ rw idle h
      ]

module _ (composite : Value → Text) (eval : Text → Fields → Evaluated) (runner : Runner) where
  register-calls :
      (template : ExporterTemplate) (env : Fields) (e : Endpoint) (answer : Outcome Text ℕ)
      (oh : ObserverHandler)
      → (register composite eval runner template env e answer oh).calls ≡ oh.calls
  unfolding register
  register-calls template env e (ok exp) oh = refl
  register-calls template env e (err message) oh = refl

  run_exporter-Answered :
      (template : ExporterTemplate) (env : Fields) (e : Endpoint) (configs : Fields × Fields)
      (oh : ObserverHandler)
      → Answered runner [] oh.calls
      → Answered runner [] (run_exporter composite eval runner template env e configs oh).calls
  unfolding run_exporter
  run_exporter-Answered template env e (resolved, discovered) oh h =
      subst (Answered runner []) (sym (register-calls template env e _ _))
        (Answered-append runner [] oh.calls _ h (refl, tt))

  -- every answer in the log of a history is the runner's
  pub notify_all-Answered :
      (templates : List ExporterTemplate) (router : TelemetryRouter) (ns : List Notification)
      → Answered runner []
          (notify_all composite eval runner templates (new_observer_handler router) ns).calls
  unfolding new_observer_handler
  notify_all-Answered templates router ns =
      notify_all_kept composite eval runner templates {P = λ oh. Answered runner [] oh.calls}
        (record {
          running = run_exporter-Answered;
          removing = λ e oh h. remove_endpoint-Answered runner e oh h;
        })
        ns (new_observer_handler router) tt
