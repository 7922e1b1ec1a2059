-- ===== src/Handler/Calls.antt =====
-- How often the runner has started and stopped an exporter, against how often the handler's map has
-- it.
use exportercreator.Prelude.{
  ℕ, ◌+◌, ◌≡◌, refl, arith, List, [], ◌∷◌, ◌++◌, Option, none, some, sum_by, sum_by-append, Text,
  text_Eq, nat_Eq,
}
use exportercreator.Prelude.Outcome.{ok}
use exportercreator.Prelude.GoMap.{Distinct, lookup, total, weight, total-insert, total-delete}
use exportercreator.Prelude.MultiMap.{slice_at, hit}
use exportercreator.ExporterMap as Multimap
use exportercreator.ExporterMap.{ExporterMap, get, remove_all, values}
use exportercreator.Handler.{
  ObserverHandler, Runner, RunnerCall, started, stopped, stop_exporter, stop_each,
}

-- How often an exporter stands in a list.
abbrev pub occurrences : ℕ → List ℕ → ℕ
occurrences n = sum_by (hit n)

abbrev pub start_of : ℕ → RunnerCall → ℕ
start_of n (started cfg discovered signals (ok exp)) = hit n exp
start_of n _ = 0

abbrev pub stop_of : ℕ → RunnerCall → ℕ
stop_of n (stopped exp answer) = hit n exp
stop_of n _ = 0

abbrev pub failed_stop : RunnerCall → ℕ
failed_stop (stopped exp (some message)) = 1
failed_stop _ = 0

-- How often the runner has started an exporter, how often it has shut it down, and how often it has
-- failed to shut one down.
abbrev pub times_started : ℕ → List RunnerCall → ℕ
times_started n = sum_by (start_of n)

abbrev pub times_stopped : ℕ → List RunnerCall → ℕ
times_stopped n = sum_by (stop_of n)

abbrev pub failed_stops : List RunnerCall → ℕ
failed_stops = sum_by failed_stop

module _ (n : ℕ) where
  weight-occurrences :
      (id : Text) (o : Option (List ℕ))
      → weight (λ (k : Text). occurrences n) id o ≡ occurrences n (slice_at o)
  weight-occurrences id none = refl
  weight-occurrences id (some xs) = refl

  total-occurrences :
      (em : ExporterMap) → total (λ (k : Text). occurrences n) em ≡ occurrences n (values em)
  unfolding total values
  total-occurrences [] = refl
  total-occurrences ((id, m) ∷ em) =
      omega (arith, total-occurrences em, sum_by-append (hit n) m (values em))

  pub occurrences-put :
      (id : Text) (exp : ℕ) (em : ExporterMap)
      → occurrences n (values (Multimap.put id exp em)) ≡ occurrences n (values em) + hit n exp
  unfolding Multimap.put
  occurrences-put id exp em = omega (
    arith,
    total-occurrences em,
    total-occurrences (Multimap.put id exp em),
    total-insert (λ (k : Text). occurrences n) id (slice_at (lookup id em) ++ exp ∷ []) em,
    weight-occurrences id (lookup id em),
    sum_by-append (hit n) (slice_at (lookup id em)) (exp ∷ []),
  )

  pub occurrences-remove_all :
      (id : Text) (em : ExporterMap)
      → Distinct em
      → occurrences n (values (remove_all id em)) + occurrences n (get id em)
        ≡ occurrences n (values em)
  unfolding remove_all get
  occurrences-remove_all id em d = omega (
    arith,
    total-occurrences em,
    total-occurrences (remove_all id em),
    total-delete (λ (k : Text). occurrences n) id em d,
    weight-occurrences id (lookup id em),
  )

-- The map has every exporter as often as it has been started and not been stopped.
pub record IsAccounted (oh : ObserverHandler) : Type 0 where
  pub distinct : Distinct oh.exporters_by_endpoint
  pub accounted :
      (n : ℕ)
      → times_started n oh.calls
        ≡ occurrences n (values oh.exporters_by_endpoint) + times_stopped n oh.calls

pub record Stops (exps : List ℕ) (oh oh' : ObserverHandler) : Type 0 where
  pub same_map : oh'.exporters_by_endpoint ≡ oh.exporters_by_endpoint
  pub starts : (n : ℕ) → times_started n oh'.calls ≡ times_started n oh.calls
  pub stops : (n : ℕ) → times_stopped n oh'.calls ≡ times_stopped n oh.calls + occurrences n exps

pub Stops-step :
    (runner : Runner) (exp : ℕ) (exps : List ℕ) (oh oh' : ObserverHandler)
    → Stops exps (stop_exporter runner exp oh) oh'
    → Stops (exp ∷ exps) oh oh'
unfolding stop_exporter
Stops-step runner exp exps oh oh' p =
    let call = stopped exp (runner.shutdown oh.calls exp) in
    record {
      same_map = p.same_map;
      starts = λ n. omega (arith, p.starts n, sum_by-append (start_of n) oh.calls (call ∷ []));
      stops = λ n. omega (arith, p.stops n, sum_by-append (stop_of n) oh.calls (call ∷ []));
    }

pub Stops-none : (oh : ObserverHandler) → Stops [] oh oh
Stops-none oh = record { same_map = refl; starts = λ n. refl; stops = λ n. omega arith }

pub stop_each-Stops :
    (runner : Runner) (exps : List ℕ) (oh : ObserverHandler)
    → Stops exps oh (stop_each runner exps oh)
unfolding stop_each
stop_each-Stops runner [] oh = Stops-none oh
stop_each-Stops runner (exp ∷ exps) oh =
    Stops-step runner exp exps oh _ (stop_each-Stops runner exps (stop_exporter runner exp oh))
