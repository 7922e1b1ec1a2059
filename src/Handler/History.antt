-- ===== src/Handler/History.antt =====
-- Histories of the notifications that observers send to the handler, and the induction over them:
-- everything that a notification does is a run of the runner for a template, or the removal of an
-- endpoint.
use exportercreator.Prelude.{
  List, [], ◌∷◌, Option, none, some, Bool, true, false, Text, if◌then◌else◌,
}
use exportercreator.Prelude.Outcome.{Outcome, ok, err}
use exportercreator.Value.{Value, Fields}
use exportercreator.Component.{Endpoint}
use exportercreator.Expansion.{Evaluated}
use exportercreator.Rules.{RuleError, eval_rule}
use exportercreator.Config.{ExporterTemplate}
use exportercreator.Handler.{
  ObserverHandler, Runner, resolve_configs, run_exporter, start_exporter, match_templates,
  add_endpoint, on_add_locked, remove_endpoint, on_remove_locked, on_change,
}

pub data Notification : Type 0 where
  added removed changed : List Endpoint → Notification

module _ (composite : Value → Text) (eval : Text → Fields → Evaluated) (runner : Runner)
    (templates : List ExporterTemplate) where
  abbrev pub notify : ObserverHandler → Notification → ObserverHandler
  notify oh (added es) = on_add_locked composite eval runner templates es oh
  notify oh (removed es) = on_remove_locked runner es oh
  notify oh (changed es) = on_change composite eval runner templates es oh

  abbrev pub notify_all : ObserverHandler → List Notification → ObserverHandler
  notify_all oh [] = oh
  notify_all oh (n ∷ ns) = notify_all (notify oh n) ns

  -- what adding one endpoint keeps, if the runs for it do
  module _ {P : ObserverHandler → Type 0} (e : Endpoint)
      (run : (template : ExporterTemplate) (env : Fields) (configs : Fields × Fields)
          (oh : ObserverHandler)
        → P oh
        → P (run_exporter composite eval runner template env e configs oh)) where
    starting :
        (template : ExporterTemplate) (env : Fields) (oh : ObserverHandler)
        (o : Option (Fields × Fields))
        → P oh
        → P (elim o [
          | none ↦ oh
          | some configs ↦ run_exporter composite eval runner template env e configs oh
        ])
    starting template env oh none p = p
    starting template env oh (some configs) p = run template env configs oh p

    trying :
        (t : ExporterTemplate) (ts : List ExporterTemplate) (env : Fields) (oh : ObserverHandler)
        (o : Outcome RuleError Bool)
        → P oh
        → ((oh' : ObserverHandler) → P oh' → P (match_templates composite eval runner ts env e oh'))
        → P (elim o [
          | err message ↦ match_templates composite eval runner ts env e oh
          | ok matches ↦
              match_templates composite eval runner ts env e
                (if matches then start_exporter composite eval runner t env e oh else oh)
        ])
    unfolding start_exporter
    trying t ts env oh (err message) p rest = rest oh p
    trying t ts env oh (ok false) p rest = rest oh p
    trying t ts env oh (ok true) p rest =
        rest _ (starting t env oh (resolve_configs composite eval t env e.target) p)

    matching :
        (ts : List ExporterTemplate) (env : Fields) (oh : ObserverHandler)
        → P oh
        → P (match_templates composite eval runner ts env e oh)
    unfolding match_templates
    matching [] env oh p = p
    matching (t ∷ ts) env oh p =
        trying t ts env oh (eval_rule t.rule env) p (λ oh' p'. matching ts env oh' p')

    with_env :
        (oh : ObserverHandler) (o : Option Fields)
        → P oh
        → P (elim o [
          | none ↦ oh
          | some env ↦ match_templates composite eval runner templates env e oh
        ])
    with_env oh none p = p
    with_env oh (some env) p = matching templates env oh p

    pub adding_one :
        (oh : ObserverHandler) → P oh → P (add_endpoint composite eval runner templates e oh)
    unfolding add_endpoint
    adding_one oh p = with_env oh e.env p

  -- The two changes keep a property.
  pub record KeptBySteps (P : ObserverHandler → Type 0) : Type 0 where
    pub running :
        (template : ExporterTemplate) (env : Fields) (e : Endpoint) (configs : Fields × Fields)
        (oh : ObserverHandler)
        → P oh
        → P (run_exporter composite eval runner template env e configs oh)
    pub removing : (e : Endpoint) (oh : ObserverHandler) → P oh → P (remove_endpoint runner e oh)

  module _ {P : ObserverHandler → Type 0} (step : KeptBySteps P) where
    adding :
        (es : List Endpoint) (oh : ObserverHandler)
        → P oh
        → P (on_add_locked composite eval runner templates es oh)
    unfolding on_add_locked
    adding [] oh p = p
    adding (e ∷ es) oh p =
        adding es _ (adding_one e (λ t env c oh' p'. step.running t env e c oh' p') oh p)

    removing_all :
        (es : List Endpoint) (oh : ObserverHandler) → P oh → P (on_remove_locked runner es oh)
    unfolding on_remove_locked
    removing_all [] oh p = p
    removing_all (e ∷ es) oh p = removing_all es _ (step.removing e oh p)

    notify_kept : (n : Notification) (oh : ObserverHandler) → P oh → P (notify oh n)
    unfolding on_change
    notify_kept (added es) oh p = adding es oh p
    notify_kept (removed es) oh p = removing_all es oh p
    notify_kept (changed es) oh p = adding es _ (removing_all es oh p)

    pub notify_all_kept :
        (ns : List Notification) (oh : ObserverHandler) → P oh → P (notify_all oh ns)
    notify_all_kept [] oh p = p
    notify_all_kept (n ∷ ns) oh p = notify_all_kept ns _ (notify_kept n oh p)
