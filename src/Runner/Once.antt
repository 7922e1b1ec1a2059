-- ===== src/Runner/Once.antt =====
-- The references of the runner of exporter_runner.go: each is that of one start.
use exportercreator.Prelude.{
  ℕ, ◌≡◌, ◌<◌, ◌≤◌, refl, ap, ◌∙◌, arith, ◌⊎◌, inl, inr, List, [], ◌∷◌, ◌++◌, some, length,
  length-append, take, take-append, get_elem?-append, nat_Eq, text_Eq,
}
use mathlib.Core.Path.{subst}
use mathlib.Core.List.{append_assoc}
use exportercreator.Prelude.MultiMap.{hit}
use exportercreator.Prelude.Outcome.{Outcome, ok, err}
use exportercreator.Value.{Fields}
use exportercreator.Config.{ExporterConfig, ExporterSignals}
use exportercreator.Handler.{RunnerCall, started, stopped}
use exportercreator.Handler.Calls.{times_started}
use exportercreator.Handler.Answered.{Answered}
use exportercreator.Wrapped.{WrappedExporter}
use exportercreator.Runner.{RunnerError}
use exportercreator.Runner.Serving.{
  Surroundings, start_wrapped, reference_of, started_by, made_by, wrapped_of, exporter_runner,
}

module _ (s : Surroundings) where
  reference_of-ok :
      (n exp : ℕ) (o : Outcome RunnerError WrappedExporter)
      → reference_of s n o ≡ ok exp
      → (exp ≡ n) × ((we : WrappedExporter) × (o ≡ ok we))
  unfolding reference_of
  reference_of-ok n exp (ok we) h = (cc h, (we, refl))
  reference_of-ok n exp (err e) h = absurd (cc h)

  -- A reference is that of one start at most.
  started_before :
      (exp : ℕ) (before calls : List RunnerCall)
      → Answered (exporter_runner s) before calls
      → exp < length before
      → times_started exp calls ≡ 0
  started_before exp before [] h small = refl
  started_before exp before (started cfg discovered signals (ok e) ∷ calls) (q, h) small =
      let at = (reference_of-ok (length before) e _ q).0 in
      let call = started cfg discovered signals (ok e) in
      let apart : hit exp e ≡ 0 = ground arith in
      omega (
        arith,
        started_before exp (before ++ call ∷ []) calls h
            (omega (arith, length-append before (call ∷ []))),
      )
  started_before exp before (started cfg discovered signals (err m) ∷ calls) (q, h) small =
      let call = started cfg discovered signals (err m) in
      omega (
        arith,
        started_before exp (before ++ call ∷ []) calls h
            (omega (arith, length-append before (call ∷ []))),
      )
  started_before exp before (stopped e answer ∷ calls) (q, h) small =
      let call = stopped e answer in
      omega (
        arith,
        started_before exp (before ++ call ∷ []) calls h
            (omega (arith, length-append before (call ∷ []))),
      )

  -- the start that a reference is that of
  pub record Start (calls : List RunnerCall) (exp : ℕ) : Type 0 where
    pub before : List RunnerCall
    pub after : List RunnerCall
    pub cfg : ExporterConfig
    pub discovered : Fields
    pub signals : ExporterSignals
    pub we : WrappedExporter
    pub split : calls ≡ before ++ started cfg discovered signals (ok exp) ∷ after
    pub at : exp ≡ length before
    pub ran : start_wrapped s before cfg discovered signals ≡ ok we

  hit_or : (n e : ℕ) → ((n ≡ e) × (hit n e ≡ 1)) ⊎ (hit n e ≡ 0)
  hit_or n e = ground arith

  grouped :
      {exp : ℕ} (before : List RunnerCall) (call : RunnerCall) (calls : List RunnerCall)
      → Start ((before ++ call ∷ []) ++ calls) exp
      → Start (before ++ call ∷ calls) exp
  grouped {exp = exp} before call calls =
      subst (λ (log : List RunnerCall). Start log exp) (append_assoc before (call ∷ []) calls)

  pub started_once :
      (exp : ℕ) (before calls : List RunnerCall)
      → Answered (exporter_runner s) before calls
      → 1 ≤ times_started exp calls
      → Start (before ++ calls) exp × (times_started exp calls ≡ 1)
  started_once exp before [] h begun = absurd (omega (arith, begun))
  started_once exp before (started cfg discovered signals (ok e) ∷ calls) (q, h) begun =
      let (at, (we, ran)) = reference_of-ok (length before) e _ q in
      let call = started cfg discovered signals (ok e) in
      elim (hit_or exp e) [
        | inl (same, counted) ↦
            let later =
              started_before exp (before ++ call ∷ []) calls h
                (omega (arith, length-append before (call ∷ []))) in
            (
              record {
                before = before;
                after = calls;
                cfg = cfg;
                discovered = discovered;
                signals = signals;
                we = we;
                split = rw same refl;
                at = same ∙ at;
                ran = ran;
              },
              omega (arith, counted, later),
            )
        | inr apart ↦
            let (start, once) = started_once exp (before ++ call ∷ []) calls h (omega arith) in
            (grouped before call calls start, omega arith)
      ]
  started_once exp before (started cfg discovered signals (err m) ∷ calls) (q, h) begun =
      let call = started cfg discovered signals (err m) in
      let (start, once) = started_once exp (before ++ call ∷ []) calls h (omega arith) in
      (grouped before call calls start, omega (arith, once))
  started_once exp before (stopped e answer ∷ calls) (q, h) begun =
      let call = stopped e answer in
      let (start, once) = started_once exp (before ++ call ∷ []) calls h (omega arith) in
      (grouped before call calls start, omega (arith, once))

  wrapped_of-start :
      (before after : List RunnerCall) (call : RunnerCall)
      → wrapped_of s (before ++ call ∷ after) (length before) ≡ made_by s before (some call)
  unfolding wrapped_of
  wrapped_of-start before after call =
      rw (take-append before (call ∷ after), get_elem?-append before call after) refl

  pub Start-wrapped_of :
      (calls : List RunnerCall) (exp : ℕ) (start : Start calls exp)
      → (take exp calls ≡ start.before) × (wrapped_of s calls exp ≡ some start.we)
  unfolding made_by started_by
  Start-wrapped_of calls exp start =
      let call = started start.cfg start.discovered start.signals (ok exp) in
      let log = start.before ++ call ∷ start.after in
      let q : wrapped_of s log (length start.before) ≡ some start.we =
        wrapped_of-start start.before start.after call ∙ ap (started_by s) start.ran in
      (
        ap (λ (n : ℕ). take n calls) start.at
            ∙ ap (λ (l : List RunnerCall). take (length start.before) l) start.split
            ∙ take-append start.before (call ∷ start.after),
        ap (λ (l : List RunnerCall). wrapped_of s l exp) start.split
            ∙ ap (λ (n : ℕ). wrapped_of s log n) start.at
            ∙ q,
      )
