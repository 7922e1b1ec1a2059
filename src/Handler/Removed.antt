-- ===== src/Handler/Removed.antt =====
-- What notifications do to the exporters of one endpoint.
use exportercreator.Prelude.{
  ℕ, ◌≡◌, refl, ap, sym, ◌∙◌, arith, List, [], ◌∷◌, ◌++◌, Bool, false, ◌||◌, Bool-cases, inl, inr,
  if◌then◌else◌, ltb, length, Text, text_Eq, ◌==◌,
}
use mathlib.Core.List.{append-nil, append_assoc}
use exportercreator.Prelude.Outcome.{Outcome, ok, err}
use exportercreator.Value.{Value, Fields}
use exportercreator.Component.{Endpoint}
use exportercreator.ExporterMap.{get, remove_all, get-put, get-remove_all}
use exportercreator.Expansion.{Evaluated}
use exportercreator.Config.{ExporterTemplate}
use exportercreator.Handler.{
  ObserverHandler, Runner, register, run_exporter, add_endpoint, on_add_locked, on_change, forget,
  remove_endpoint, on_remove_locked,
}
use exportercreator.Handler.History.{Notification, added, removed, changed, notify, adding_one}
use exportercreator.Handler.Calls.{stop_each-Stops}

-- whether an endpoint is among those of a notification
abbrev pub reports : Text → List Endpoint → Bool
reports id [] = false
reports id (e ∷ es) = e.id == id || reports id es

no_items : (xs : List ℕ) → ltb 0 (length xs) ≡ false → xs ≡ []
no_items [] h = refl
no_items (x ∷ xs) h = ground arith

module _ (runner : Runner) where
  get-remove_endpoint :
      (e : Endpoint) (oh : ObserverHandler) (id : Text)
      → get id (remove_endpoint runner e oh).exporters_by_endpoint
        ≡ (if e.id == id then [] else get id oh.exporters_by_endpoint)
  unfolding remove_endpoint forget
  get-remove_endpoint e oh id =
      let exps = get e.id oh.exporters_by_endpoint in
      let s = stop_each-Stops runner exps oh in
      elim (Bool-cases (ltb 0 (length exps))) [
        | inl running ↦ rw running (
            ap (λ em. get id (remove_all e.id em)) s.same_map
            ∙ get-remove_all e.id id oh.exporters_by_endpoint)
        | inr idle ↦ rw idle (elim (Bool-cases (e.id == id)) [
          | inl same ↦ rw same (
              no_items (get id oh.exporters_by_endpoint) (
                ap (λ j. ltb 0 (length (get j oh.exporters_by_endpoint)))
                  (sym ((text_Eq.beq_iff e.id id).0 same))
                ∙ idle))
          | inr other ↦ rw other
        ])
      ]

  get-on_remove_locked :
      (es : List Endpoint) (oh : ObserverHandler) (id : Text)
      → get id (on_remove_locked runner es oh).exporters_by_endpoint
        ≡ (if reports id es then [] else get id oh.exporters_by_endpoint)
  unfolding on_remove_locked
  get-on_remove_locked [] oh id = refl
  get-on_remove_locked (e ∷ es) oh id =
      get-on_remove_locked es (remove_endpoint runner e oh) id
      ∙ ap (λ xs. if reports id es then [] else xs) (get-remove_endpoint e oh id)
      ∙ ground arith

-- The exporters of `id` are `kept` and more behind them, and those only if `id` is reported.
abbrev pub Grows : Text → Bool → List ℕ → ObserverHandler → Type 0
Grows id reported kept oh =
    (more : List ℕ) × (get id oh.exporters_by_endpoint ≡ kept ++ more)
    × (reported ≡ false → more ≡ [])

module _ (composite : Value → Text) (eval : Text → Fields → Evaluated) (runner : Runner)
    (templates : List ExporterTemplate) where
  register-Grows :
      (e : Endpoint) (id : Text) (kept : List ℕ) (template : ExporterTemplate) (env : Fields)
      (answer : Outcome Text ℕ) (oh : ObserverHandler)
      → Grows id (e.id == id) kept oh
      → Grows id (e.id == id) kept (register composite eval runner template env e answer oh)
  unfolding register
  register-Grows e id kept template env (err message) oh p = p
  register-Grows e id kept template env (ok exp) oh (more, q, none_else) = (
    more ++ (if e.id == id then exp ∷ [] else []),
    get-put e.id id exp oh.exporters_by_endpoint
        ∙ ap (λ xs. xs ++ (if e.id == id then exp ∷ [] else [])) q
        ∙ append_assoc kept more (if e.id == id then exp ∷ [] else []),
    λ other. rw (other, none_else other),
  )

  run_exporter-Grows :
      (e : Endpoint) (id : Text) (kept : List ℕ) (template : ExporterTemplate) (env : Fields)
      (configs : Fields × Fields) (oh : ObserverHandler)
      → Grows id (e.id == id) kept oh
      → Grows id (e.id == id) kept (run_exporter composite eval runner template env e configs oh)
  unfolding run_exporter
  run_exporter-Grows e id kept template env (resolved, discovered) oh p =
      register-Grows e id kept template env _ _ p

  add_endpoint-Grows :
      (e : Endpoint) (id : Text) (oh : ObserverHandler)
      → Grows id
          (e.id == id)
          (get id oh.exporters_by_endpoint)
          (add_endpoint composite eval runner templates e oh)
  add_endpoint-Grows e id oh =
      adding_one composite eval runner templates
        {P = Grows id (e.id == id) (get id oh.exporters_by_endpoint)} e
        (λ t env c oh' p. run_exporter-Grows e id _ t env c oh' p) oh
        ([], sym (append-nil _), λ other. refl)

  on_add_locked-Grows :
      (es : List Endpoint) (id : Text) (oh : ObserverHandler)
      → Grows id
          (reports id es)
          (get id oh.exporters_by_endpoint)
          (on_add_locked composite eval runner templates es oh)
  unfolding on_add_locked
  on_add_locked-Grows [] id oh = ([], sym (append-nil _), λ other. refl)
  on_add_locked-Grows (e ∷ es) id oh =
      let (one, q, none_one) = add_endpoint-Grows e id oh in
      let (rest, r, none_rest) =
        on_add_locked-Grows es id (add_endpoint composite eval runner templates e oh) in
      (
        one ++ rest,
        r ∙ ap (λ xs. xs ++ rest) q ∙ append_assoc (get id oh.exporters_by_endpoint) one rest,
        λ other. rw (none_one (ground arith), none_rest (ground arith)),
      )

  -- whether a notification drops the exporters of an endpoint, and whether it may start some
  abbrev pub drops : Text → Notification → Bool
  drops id (added es) = false
  drops id (removed es) = reports id es
  drops id (changed es) = reports id es

  abbrev pub starts : Text → Notification → Bool
  starts id (added es) = reports id es
  starts id (removed es) = false
  starts id (changed es) = reports id es

  pub notify-endpoint :
      (n : Notification) (id : Text) (oh : ObserverHandler)
      → Grows id
          (starts id n)
          (if drops id n then [] else get id oh.exporters_by_endpoint)
          (notify composite eval runner templates oh n)
  unfolding on_change
  notify-endpoint (added es) id oh = on_add_locked-Grows es id oh
  notify-endpoint (removed es) id oh =
      ([], get-on_remove_locked runner es oh id ∙ sym (append-nil _), λ other. refl)
  notify-endpoint (changed es) id oh =
      let (more, q, none_else) = on_add_locked-Grows es id (on_remove_locked runner es oh) in
      (more, q ∙ ap (λ xs. xs ++ more) (get-on_remove_locked runner es oh id), none_else)
