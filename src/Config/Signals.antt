-- ===== src/Config/Signals.antt =====
-- `signalsFromConfig` of config.go: the optional block that selects the signals of a template.
use exportercreator.Prelude.{
  ◌≡◌, refl, ap, sym, ◌∙◌, Bool, true, false, ◌||◌, Bool-cases, inl, inr, [], ◌∷◌, Option, none,
  some, if◌then◌else◌, Text, text_Eq, ◌==◌, text_eq,
}
use exportercreator.Prelude.Outcome.{Outcome, ok, err, ◌>>=◌, >>=-eq-ok}
use exportercreator.Value.{Value, Fields, bool, text, object, end, field, find, DistinctKeys}
use exportercreator.Config.{ExporterSignals}

pub data SignalsError : Type 0 where
  not_a_map none_enabled : SignalsError
  not_a_boolean unknown_key : Text → SignalsError

abbrev pub metrics_key : Text
metrics_key = b'm' ∷ b'e' ∷ b't' ∷ b'r' ∷ b'i' ∷ b'c' ∷ b's' ∷ []

abbrev pub logs_key : Text
logs_key = b'l' ∷ b'o' ∷ b'g' ∷ b's' ∷ []

abbrev pub traces_key : Text
traces_key = b't' ∷ b'r' ∷ b'a' ∷ b'c' ∷ b'e' ∷ b's' ∷ []

-- the switch of the loop body
unfoldable pub set_signal : Text → Bool → ExporterSignals → Outcome SignalsError ExporterSignals
set_signal key enabled signals =
    if key == metrics_key
    then ok (record signals { metrics = enabled })
    else if key == logs_key
    then ok (record signals { logs = enabled })
    else if key == traces_key
    then ok (record signals { traces = enabled })
    else err (unknown_key key)

unfoldable pub read_signal : Text → Value → ExporterSignals → Outcome SignalsError ExporterSignals
unfolding set_signal
read_signal key (bool enabled) signals = set_signal key enabled signals
read_signal key v signals = err (not_a_boolean key)

unfoldable pub read_signals : Fields → ExporterSignals → Outcome SignalsError ExporterSignals
unfolding read_signal
read_signals end signals = ok signals
read_signals (field key v fs) signals = do next ← read_signal key v signals; read_signals fs next

abbrev pub no_signals : ExporterSignals
no_signals = record { metrics = false; logs = false; traces = false }

unfoldable pub some_enabled : ExporterSignals → Outcome SignalsError (Option ExporterSignals)
some_enabled signals =
    if signals.metrics || signals.logs || signals.traces
    then ok (some signals)
    else err none_enabled

-- None is returned for a block that is absent.
unfoldable pub signals_from_config : Option Value → Outcome SignalsError (Option ExporterSignals)
unfolding read_signals some_enabled
signals_from_config none = ok none
signals_from_config (some (object fs)) = do
  signals ← read_signals fs no_signals
  some_enabled signals
signals_from_config (some v) = err not_a_map

-- what an entry says of its signal, which is off without one
abbrev pub setting : Bool → Option Value → Bool
setting b (some (bool enabled)) = enabled
setting b o = b

-- The settings of a block, from those before.
record Reads (fs : Fields) (s t : ExporterSignals) : Type 0 where
  on_metrics : t.metrics ≡ setting s.metrics (find metrics_key fs)
  on_logs : t.logs ≡ setting s.logs (find logs_key fs)
  on_traces : t.traces ≡ setting s.traces (find traces_key fs)

-- One entry sets the signal of its key and leaves the others.
record Sets (key : Text) (enabled : Bool) (s t : ExporterSignals) : Type 0 where
  on_metrics : t.metrics ≡ (if key == metrics_key then enabled else s.metrics)
  on_logs : t.logs ≡ (if key == logs_key then enabled else s.logs)
  on_traces : t.traces ≡ (if key == traces_key then enabled else s.traces)

set_signal-Sets :
    (key : Text) (enabled : Bool) (s t : ExporterSignals)
    → set_signal key enabled s ≡ ok t
    → Sets key enabled s t
unfolding set_signal text_eq
set_signal-Sets key enabled s t h = elim (Bool-cases (key == metrics_key)) [
  | inl m ↦
      let q : key ≡ metrics_key = (text_Eq.beq_iff key metrics_key).0 m in
      let e : record s { metrics = enabled } ≡ t = cc (rw m at h) in
      rw (sym e, q) (record { on_metrics = refl; on_logs = refl; on_traces = refl })
  | inr m ↦ elim (Bool-cases (key == logs_key)) [
    | inl l ↦
        let q : key ≡ logs_key = (text_Eq.beq_iff key logs_key).0 l in
        let e : record s { logs = enabled } ≡ t = cc (rw (m, l) at h) in
        rw (sym e, q) (record { on_metrics = refl; on_logs = refl; on_traces = refl })
    | inr l ↦ elim (Bool-cases (key == traces_key)) [
      | inl r ↦
          let q : key ≡ traces_key = (text_Eq.beq_iff key traces_key).0 r in
          let e : record s { traces = enabled } ≡ t = cc (rw (m, l, r) at h) in
          rw (sym e, q) (record { on_metrics = refl; on_logs = refl; on_traces = refl })
      | inr r ↦ absurd (cc (rw (m, l, r) at h))
    ]
  ]
]

setting_step :
    (key k : Text) (enabled b x y : Bool) (fs : Fields)
    → find key fs ≡ none
    → x ≡ (if key == k then enabled else b)
    → y ≡ setting x (find k fs)
    → y ≡ setting b (find k (field key (bool enabled) fs))
unfolding find
setting_step key k enabled b x y fs missing first rest = elim (Bool-cases (key == k)) [
  | inl same ↦
      let q : key ≡ k = (text_Eq.beq_iff key k).0 same in
      let gone : find k fs ≡ none = ap (λ i. find i fs) (sym q) ∙ missing in
      let first' : x ≡ enabled = rw same at first in rw same (rest ∙ ap (setting x) gone ∙ first')
  | inr different ↦
      let first' : x ≡ b = rw different at first in
      rw different (rest ∙ ap (λ i. setting i (find k fs)) first')
]

read_signals-Reads :
    (fs : Fields) (s t : ExporterSignals)
    → DistinctKeys fs
    → read_signals fs s ≡ ok t
    → Reads fs s t
unfolding read_signals read_signal find
read_signals-Reads end s t d h =
    let q : s ≡ t = cc h in
    rw (sym q) (record { on_metrics = refl; on_logs = refl; on_traces = refl })
read_signals-Reads (field key (bool enabled) fs) s t d h =
    let (next, first, rest) = >>=-eq-ok (set_signal key enabled s) _ h in
    let p = set_signal-Sets key enabled s next first in
    let q = read_signals-Reads fs next t d.1 rest in
    record {
      on_metrics = setting_step key metrics_key enabled _ _ _ fs d.0 p.on_metrics q.on_metrics;
      on_logs = setting_step key logs_key enabled _ _ _ fs d.0 p.on_logs q.on_logs;
      on_traces = setting_step key traces_key enabled _ _ _ fs d.0 p.on_traces q.on_traces;
    }
read_signals-Reads (field key (text v) fs) s t d h = absurd (cc h)
read_signals-Reads (field key v fs) s t d h = absurd (cc h)

some_enabled-ok :
    (s t : ExporterSignals)
    → some_enabled s ≡ ok (some t)
    → (s ≡ t) × ((t.metrics || t.logs || t.traces) ≡ true)
unfolding some_enabled
some_enabled-ok s t h = elim (Bool-cases (s.metrics || s.logs || s.traces)) [
  | inl any ↦ let q : s ≡ t = cc (rw any at h) in (q, rw (sym q) any)
  | inr nothing ↦ absurd (cc (rw nothing at h))
]

-- When a block with distinct keys is accepted, a signal is enabled if the block has true for it, and
-- not if it has false or nothing, in whatever order the entries are read; and one is enabled.
pub signals_from_config-ok :
    (fs : Fields) (t : ExporterSignals)
    → DistinctKeys fs
    → signals_from_config (some (object fs)) ≡ ok (some t)
    → (t.metrics ≡ setting false (find metrics_key fs))
      × (t.logs ≡ setting false (find logs_key fs))
      × (t.traces ≡ setting false (find traces_key fs))
      × ((t.metrics || t.logs || t.traces) ≡ true)
unfolding signals_from_config
signals_from_config-ok fs t d h =
    let (s, first, rest) = >>=-eq-ok (read_signals fs no_signals) _ h in
    let (same, any) = some_enabled-ok s t rest in
    let p = read_signals-Reads fs no_signals s d first in
    (
      ap (λ (x : ExporterSignals). x.metrics) (sym same) ∙ p.on_metrics,
      ap (λ (x : ExporterSignals). x.logs) (sym same) ∙ p.on_logs,
      ap (λ (x : ExporterSignals). x.traces) (sym same) ∙ p.on_traces,
      any,
    )
