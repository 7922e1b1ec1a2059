-- ===== src/Consume/WarnOnce.antt =====
-- An exporter that does not handle a signal is warned about once.
use exportercreator.Prelude.{
  ℕ, ◌+◌, ◌≡◌, refl, ap, sym, ◌∙◌, arith, Bool, true, false, Bool-cases, inl, inr, List, [], ◌∷◌,
  ◌++◌, Option, none, some, if◌then◌else◌, nat_Eq, ◌==◌, Text, sum_by, sum_by-append,
}
use exportercreator.Prelude.GoMap.{lookup, lookup-insert}
use exportercreator.Prelude.MultiMap.{push}
use exportercreator.Component.{Signal, logs, metrics, traces}
use exportercreator.Wrapped.{
  Exporter, wrapped, static, consumer_of, Warned, Warnings, never_warned, warned_at,
  first_unsupported, warn_unsupported_signal,
}
use exportercreator.Consume.{
  Grouping, Delivery, offer, count_unaccepted, group_resource, group, start_grouping, consume_batch,
}

abbrev pub same_signal : Signal → Signal → Bool
same_signal logs logs = true
same_signal metrics metrics = true
same_signal traces traces = true
same_signal s t = false

abbrev pub flag : Signal → Warned → Bool
flag logs w = w.warned_logs
flag metrics w = w.warned_metrics
flag traces w = w.warned_traces

-- How often a warning has been logged.
abbrev is_warning : ℕ → Signal → ℕ × Signal → ℕ
is_warning exp signal (e, s) = if e == exp then (if same_signal s signal then 1 else 0) else 0

abbrev pub times_warned : ℕ → Signal → List (ℕ × Signal) → ℕ
times_warned exp signal = sum_by (is_warning exp signal)

-- Each warning has been logged as often as its flag says: once or not at all.
pub record IsOnce (w : Warnings) : Type 0 where
  pub logged_once :
      (exp : ℕ) (signal : Signal)
      → times_warned exp signal w.logged
        ≡ (if flag signal (warned_at (lookup exp w.flags)) then 1 else 0)

pub none_warned : IsOnce (record { flags = []; logged = [] })
unfolding lookup
none_warned = record { logged_once = λ exp. unset }
  where
    unset : (signal : Signal) → ◌≡◌ {A = ℕ} 0 (if flag signal never_warned then 1 else 0)
    unset logs = refl
    unset metrics = refl
    unset traces = refl

nothing_added : (b : Bool) (n : ℕ) → n + (if b then 0 else 0) ≡ n
nothing_added true n = omega arith
nothing_added false n = omega arith

-- The count and the flag of one signal, before and after the swap of the flag of another.
swapped :
    (s t : Signal) (w : Warned) (n : ℕ)
    → n ≡ (if flag t w then 1 else 0)
    → n + (if (first_unsupported s w).0 then (if same_signal s t then 1 else 0) else 0)
      ≡ (if flag t (first_unsupported s w).1 then 1 else 0)
unfolding first_unsupported
swapped logs logs w n h = ground arith
swapped logs metrics w n h = ground arith
swapped logs traces w n h = ground arith
swapped metrics logs w n h = ground arith
swapped metrics metrics w n h = ground arith
swapped metrics traces w n h = ground arith
swapped traces logs w n h = ground arith
swapped traces metrics w n h = ground arith
swapped traces traces w n h = ground arith

times_warned-if :
    (first : Bool) (e exp : ℕ) (s t : Signal) (logged : List (ℕ × Signal))
    → times_warned exp t (if first then logged ++ (e, s) ∷ [] else logged)
      ≡ times_warned exp t logged + (if first then is_warning exp t (e, s) else 0)
times_warned-if true e exp s t logged =
    omega (arith, sum_by-append (is_warning exp t) logged ((e, s) ∷ []))
times_warned-if false e exp s t logged = omega arith

pub warn_unsupported_signal-IsOnce :
    (e : ℕ) (x : Exporter) (s : Signal) (w : Warnings)
    → IsOnce w
    → IsOnce (warn_unsupported_signal e x s w)
unfolding warn_unsupported_signal
warn_unsupported_signal-IsOnce e (static handles) s w p = p
warn_unsupported_signal-IsOnce e (wrapped we) s w p =
    let old = warned_at (lookup e w.flags) in
    let first = (first_unsupported s old).0 in
    let new = (first_unsupported s old).1 in
    record {
      logged_once = λ exp t.
          times_warned-if first e exp s t w.logged ∙ elim (Bool-cases (e == exp)) [
            | inl same ↦
                let q : e ≡ exp = (nat_Eq.beq_iff e exp).0 same in
                rw (lookup-insert, same)
                  (swapped s t old (times_warned exp t w.logged) (
                    p.logged_once exp t
                    ∙ ap (λ i. if flag t (warned_at (lookup i w.flags)) then 1 else 0) (sym q)))
            | inr other ↦
                rw (lookup-insert, other)
                  (nothing_added first (times_warned exp t w.logged) ∙ p.logged_once exp t)
          ];
    }

module _ {R : Type 0} (signal : Signal) (exporter_at : ℕ → Exporter) (count : R → ℕ) where
  offer-IsOnce :
      (r : R) (exps : List ℕ) (accepted : Bool) (g : Grouping R)
      → IsOnce g.warnings
      → IsOnce (offer signal exporter_at r exps accepted g).1.warnings
  unfolding offer
  offer-IsOnce r [] accepted g p = p
  offer-IsOnce r (e ∷ es) accepted g p =
      by (consumer_of signal e (exporter_at e)) (λ a h q. offer-IsOnce r es a h q)
    where
      by :
          (o : Option ℕ)
          → ((a : Bool) (h : Grouping R)
              → IsOnce h.warnings
              → IsOnce (offer signal exporter_at r es a h).1.warnings)
          → IsOnce
              (elim o as (λ x. Bool × Grouping R) [
                | none ↦ offer signal exporter_at r es accepted (record g {
                  warnings = warn_unsupported_signal e (exporter_at e) signal g.warnings;
                })
                | some consumer ↦
                    offer signal exporter_at r es true (record g { groups = push e r g.groups })
              ]).1.warnings
      by none ih =
          ih accepted _ (warn_unsupported_signal-IsOnce e (exporter_at e) signal g.warnings p)
      by (some c) ih = ih true _ p

  count_unaccepted-warnings :
      (r : R) (result : Bool × Grouping R)
      → (count_unaccepted signal exporter_at count r result).warnings ≡ result.1.warnings
  unfolding count_unaccepted
  count_unaccepted-warnings r (true, g) = refl
  count_unaccepted-warnings r (false, g) = refl

  group_resource-IsOnce :
      (r : R) (exps : List ℕ) (g : Grouping R)
      → IsOnce g.warnings
      → IsOnce (group_resource signal exporter_at count r exps g).warnings
  unfolding group_resource
  group_resource-IsOnce r [] g p = p
  group_resource-IsOnce r (exp ∷ exps) g p =
      rw (count_unaccepted-warnings r (offer signal exporter_at r (exp ∷ exps) false g))
        (offer-IsOnce r (exp ∷ exps) false g p)

  group-IsOnce :
      (matched : R → List ℕ) (batch : List R) (g : Grouping R)
      → IsOnce g.warnings
      → IsOnce (group signal exporter_at count matched batch g).warnings
  unfolding group
  group-IsOnce matched [] g p = p
  group-IsOnce matched (r ∷ rs) g p =
      group-IsOnce matched rs _ (group_resource-IsOnce r (matched r) g p)

  -- If each exporter and signal has been warned about at most once before a batch, as its flag says,
  -- then so it is after the batch.
  pub consume_batch-IsOnce :
      (consume : List (Delivery R) → ℕ → List R → Option Text) (matched : R → List ℕ)
      (telemetry : Bool) (defaults : List ℕ) (batch : List R) (w : Warnings)
      → IsOnce w
      → IsOnce
          (consume_batch signal exporter_at count consume matched telemetry defaults batch
            w).warnings
  unfolding consume_batch start_grouping
  consume_batch-IsOnce consume matched telemetry defaults batch w p =
      group-IsOnce matched batch (start_grouping w) p
