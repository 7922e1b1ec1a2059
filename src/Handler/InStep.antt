-- ===== src/Handler/InStep.antt =====
-- The handler's map and the router stay in step through every history of notifications.
use exportercreator.Prelude.{
  ℕ, suc, ◌%◌, ◌≡◌, refl, ap, sym, ◌∙◌, arith, List, [], ◌∷◌, ◌++◌, Bool, true, false, Bool-cases,
  inl, inr, if◌then◌else◌, ltb, length, length-append, Text, text_Eq, ◌==◌, word,
}
use exportercreator.Prelude.GoMap.{Distinct, lookup, insert-Distinct, delete-Distinct}
use exportercreator.Prelude.MultiMap.{slice_at}
use exportercreator.Prelude.Outcome.{Outcome, ok, err}
use exportercreator.Value.{Value, Fields}
use exportercreator.Component.{Endpoint}
use exportercreator.ExporterMap as Multimap
use exportercreator.ExporterMap.{
  ExporterMap, get, remove_all, values, get-put, get-remove_all, size_lem,
}
use exportercreator.Router.{
  RoutingRule, RoutedExporter, new_telemetry_router, registered, add_exporter, count_of,
}
use exportercreator.Router.History.{
  Live, add, select, without, after, select-snoc, select-without, length-without,
}
use exportercreator.Router.Refines.{
  Represents, add_exporter-Represents, remove_exporter-Represents, new-Represents,
}
use exportercreator.Expansion.{Evaluated}
use exportercreator.Config.{ExporterTemplate}
use exportercreator.Handler.{
  ObserverHandler, Runner, new_observer_handler, routing_env, register, run_exporter, stop_exporter,
  stop_each, forget, remove_endpoint,
}
use exportercreator.Handler.History.{Notification, notify_all, notify_all_kept}

abbrev pub exporters_of : List RoutedExporter → List ℕ
exporters_of [] = []
exporters_of (re ∷ res) = re.exporter ∷ exporters_of res

exporters_of-append :
    (xs ys : List RoutedExporter) → exporters_of (xs ++ ys) ≡ exporters_of xs ++ exporters_of ys
exporters_of-append [] ys = refl
exporters_of-append (x ∷ xs) ys = ap (◌∷◌ x.exporter) (exporters_of-append xs ys)

length-exporters_of : (xs : List RoutedExporter) → length (exporters_of xs) ≡ length xs
length-exporters_of [] = refl
length-exporters_of (x ∷ xs) = ap suc (length-exporters_of xs)

-- Both stand for the same registrations.
pub record StandsFor (oh : ObserverHandler) (live : Live) : Type 0 where
  pub represents : Represents oh.router live
  pub distinct : Distinct oh.exporters_by_endpoint
  pub holds : (id : Text) → get id oh.exporters_by_endpoint ≡ exporters_of (select id live)
  pub sized : length (values oh.exporters_by_endpoint) ≡ length live

abbrev pub IsInStep : ObserverHandler → Type 0
IsInStep oh = (live : Live) × StandsFor oh live

exporters_of-if :
    (b : Bool) (re : RoutedExporter)
    → exporters_of (if b then re ∷ [] else []) ≡ (if b then re.exporter ∷ [] else [])
exporters_of-if true re = refl
exporters_of-if false re = refl

no_exporters_of-if :
    (b : Bool) (xs : List RoutedExporter)
    → exporters_of (if b then [] else xs) ≡ (if b then [] else exporters_of xs)
no_exporters_of-if true xs = refl
no_exporters_of-if false xs = refl

pub put-Distinct :
    (id : Text) (exp : ℕ) (em : ExporterMap) → Distinct em → Distinct (Multimap.put id exp em)
unfolding Multimap.put
put-Distinct id exp em d = insert-Distinct id _ em d

pub remove_all-Distinct : (id : Text) (em : ExporterMap) → Distinct em → Distinct (remove_all id em)
unfolding remove_all
remove_all-Distinct id em d = delete-Distinct id em d

module _ {oh : ObserverHandler} {live : Live} (p : StandsFor oh live) where
  registered-StandsFor :
      (id : Text) (exp : ℕ) (env : Fields) (kind : Text)
      → StandsFor
          (record oh {
            exporters_by_endpoint = Multimap.put id exp oh.exporters_by_endpoint;
            router = (add_exporter id exp env kind oh.router).0;
          })
          (after live (add id exp env kind))
  registered-StandsFor id exp env kind =
      let re = registered exp env kind in
      record {
        represents = add_exporter-Represents p.represents id exp env kind;
        distinct = put-Distinct id exp oh.exporters_by_endpoint p.distinct;
        holds = λ j.
            get-put id j exp oh.exporters_by_endpoint
            ∙ ap (λ xs. xs ++ (if id == j then exp ∷ [] else [])) (p.holds j)
            ∙ ap (λ ys. exporters_of (select j live) ++ ys) (sym (exporters_of-if (id == j) re))
            ∙ sym (exporters_of-append (select j live) (if id == j then re ∷ [] else []))
            ∙ ap exporters_of (sym (select-snoc j id re live));
        sized = omega (
          arith,
          (size_lem id exp oh.exporters_by_endpoint p.distinct).1,
          p.sized,
          length-append live ((id, re) ∷ []),
        );
      }

  forget-StandsFor : (id : Text) → StandsFor (forget id oh) (without id live)
  unfolding forget
  forget-StandsFor id = record {
    represents = remove_exporter-Represents p.represents id;
    distinct = remove_all-Distinct id oh.exporters_by_endpoint p.distinct;
    holds = λ j.
        get-remove_all id j oh.exporters_by_endpoint
        ∙ ap (λ xs. if id == j then [] else xs) (p.holds j)
        ∙ sym (no_exporters_of-if (id == j) (select j live))
        ∙ ap exporters_of (sym (select-without id j live));
    sized = omega (
      arith,
      (size_lem id 0 oh.exporters_by_endpoint p.distinct).2,
      p.sized,
      length-without id live,
      ap length (p.holds id),
      length-exporters_of (select id live),
    );
  }

same-StandsFor :
    {oh : ObserverHandler} {live : Live} (runner : Runner) (exps : List ℕ)
    → StandsFor oh live
    → StandsFor (stop_each runner exps oh) live
unfolding stop_each stop_exporter
same-StandsFor runner [] p = p
same-StandsFor runner (exp ∷ exps) p =
    same-StandsFor runner exps (record {
      represents = p.represents;
      distinct = p.distinct;
      holds = p.holds;
      sized = p.sized;
    })

module _ (composite : Value → Text) (eval : Text → Fields → Evaluated) (runner : Runner) where
  register-InStep :
      (template : ExporterTemplate) (env : Fields) (e : Endpoint) (answer : Outcome Text ℕ)
      (oh : ObserverHandler)
      → IsInStep oh
      → IsInStep (register composite eval runner template env e answer oh)
  unfolding register
  register-InStep template env e (err message) oh p = p
  register-InStep template env e (ok exp) oh (live, p) = (
    _,
    registered-StandsFor p e.id exp (routing_env composite eval template env)
        template.exporter_config.id.kind,
  )

  run_exporter-InStep :
      (template : ExporterTemplate) (env : Fields) (e : Endpoint) (configs : Fields × Fields)
      (oh : ObserverHandler)
      → IsInStep oh
      → IsInStep (run_exporter composite eval runner template env e configs oh)
  unfolding run_exporter
  run_exporter-InStep template env e (resolved, discovered) oh (live, p) =
      register-InStep template env e _ _ (
        live,
        record {
          represents = p.represents;
          distinct = p.distinct;
          holds = p.holds;
          sized = p.sized;
        },
      )

  remove_endpoint-InStep :
      (e : Endpoint) (oh : ObserverHandler) → IsInStep oh → IsInStep (remove_endpoint runner e oh)
  unfolding remove_endpoint
  remove_endpoint-InStep e oh (live, p) =
      let exps = get e.id oh.exporters_by_endpoint in
      elim (Bool-cases (ltb 0 (length exps))) [
        | inl some ↦
            rw some (without e.id live, forget-StandsFor (same-StandsFor runner exps p) e.id)
        | inr none ↦ rw none (live, p)
      ]

  pub notify_all-IsInStep :
      (templates : List ExporterTemplate) (rules : List RoutingRule) (telemetry : Bool)
      (ns : List Notification)
      → IsInStep (
          notify_all composite eval runner templates
            (new_observer_handler (new_telemetry_router rules telemetry))
            ns)
  unfolding new_observer_handler values count_of get lookup
  notify_all-IsInStep templates rules telemetry ns =
      notify_all_kept composite eval runner templates {P = IsInStep}
        (record { running = run_exporter-InStep; removing = remove_endpoint-InStep }) ns
        (new_observer_handler (new_telemetry_router rules telemetry))
        (
          [],
          record {
            represents = new-Represents rules telemetry;
            distinct = tt;
            holds = λ id. refl;
            sized = refl;
          },
        )

  -- After any history of notifications on a new handler, each endpoint has in the router the
  -- exporters that the handler's map has for it, in the same order, and the router's count is their
  -- number over all endpoints, as a 64-bit word.
  pub notify_all-in_step :
      (templates : List ExporterTemplate) (rules : List RoutingRule) (telemetry : Bool)
      (ns : List Notification)
      → let start = new_observer_handler (new_telemetry_router rules telemetry) in
        let oh = notify_all composite eval runner templates start ns in
        ((id : Text)
          → exporters_of (slice_at (lookup id oh.router.exporters))
            ≡ get id oh.exporters_by_endpoint)
        × (count_of oh.router ≡ length (values oh.exporters_by_endpoint) % word)
  unfolding new_observer_handler values count_of get lookup
  notify_all-in_step templates rules telemetry ns =
      let (live, p) = notify_all-IsInStep templates rules telemetry ns in
      (
        λ id. ap exporters_of (p.represents.holds id) ∙ sym (p.holds id),
        p.represents.counted ∙ ap (λ n. n % word) (sym p.sized),
      )
