-- ===== src/Router/Gauge.antt =====
-- What each call of the router reports (`recordCountLocked`) of the exporters of each type.
use exportercreator.Prelude.{
  ℕ, ◌%◌, ◌≡◌, refl, true, List, [], ◌∷◌, ◌++◌, some, if◌then◌else◌, Text, text_Eq, ◌==◌,
  Bool-cases, inl, inr, ◌⊎◌, word, arith, ap, ◌∙◌, sym,
}
use exportercreator.Prelude.GoMap.{GoMap, lookup, insert, lookup-insert}
use exportercreator.Prelude.MultiMap.{slice_at, number_at}
use exportercreator.Value.{Fields}
use exportercreator.Router.{
  RoutingRule, RoutedExporter, TelemetryRouter, new_telemetry_router, add_exporter, remove_exporter,
  decrement_types, record_count_locked,
}
use exportercreator.Router.History.{RouterCall, add, remove, of_type, after_all}
use exportercreator.Router.Refines.{call, call_all, telemetry_router_refines}

-- Some call of the history registered an exporter of type `t`.
pub data Seen (t : Text) : List RouterCall → Type 0 where
  now :
      {id : Text} {exp : ℕ} {env : Fields} {exporter_type : Text} {cs : List RouterCall}
      → exporter_type ≡ t
      → Seen t (add id exp env exporter_type ∷ cs)
  later : {c : RouterCall} {cs : List RouterCall} → Seen t cs → Seen t (c ∷ cs)

abbrev Reported : Text → GoMap Text ℕ → Type 0
Reported t m = (n : ℕ) × (lookup t m ≡ some n)

insert-Reported :
    (t k : Text) (n : ℕ) (m : GoMap Text ℕ) → Reported t m ⊎ (k ≡ t) → Reported t (insert k n m)
insert-Reported t k n m h = elim (Bool-cases (k == t)) [
  | inl same ↦ (n, lookup-insert k t n m ∙ ap (λ b. if b then some n else lookup t m) same)
  | inr other ↦ elim h [
    | inl (j, found) ↦
        (j, lookup-insert k t n m ∙ ap (λ b. if b then some n else lookup t m) other ∙ found)
    | inr q ↦ absurd (ground (arith, text_Eq.beq_iff k t))
  ]
]

decrement_types-Reported :
    (t : Text) (gone : List RoutedExporter) (m : GoMap Text ℕ)
    → Reported t m
    → Reported t (decrement_types gone m)
unfolding decrement_types
decrement_types-Reported t [] m h = h
decrement_types-Reported t (re ∷ res) m h =
    decrement_types-Reported t res _ (insert-Reported t re.exporter_type _ m (inl h))

call-Reported :
    (t : Text) (r : TelemetryRouter) (c : RouterCall)
    → Reported t r.by_type
    → Reported t (call r c).by_type
unfolding add_exporter remove_exporter
call-Reported t r (add id exp env k) h = insert-Reported t k _ r.by_type (inl h)
call-Reported t r (remove id) h =
    decrement_types-Reported t (slice_at (lookup id r.exporters)) r.by_type h

call_all-Reported :
    (t : Text) (r : TelemetryRouter) (cs : List RouterCall)
    → Reported t r.by_type
    → Reported t (call_all r cs).by_type
call_all-Reported t r [] h = h
call_all-Reported t r (c ∷ cs) h = call_all-Reported t (call r c) cs (call-Reported t r c h)

Seen-Reported :
    (t : Text) (r : TelemetryRouter) (cs : List RouterCall)
    → Seen t cs
    → Reported t (call_all r cs).by_type
unfolding add_exporter
Seen-Reported t r [] h = elim h [ ]
Seen-Reported t r (add id exp env k ∷ cs) (now q) =
    call_all-Reported t (call r (add id exp env k)) cs (insert-Reported t k _ r.by_type (inr q))
Seen-Reported t r (c ∷ cs) (later h) = Seen-Reported t (call r c) cs h

call_all-telemetry :
    (r : TelemetryRouter) (cs : List RouterCall) → (call_all r cs).telemetry ≡ r.telemetry
unfolding add_exporter remove_exporter
call_all-telemetry r [] = refl
call_all-telemetry r (add id exp env k ∷ cs) = call_all-telemetry (call r (add id exp env k)) cs
call_all-telemetry r (remove id ∷ cs) = call_all-telemetry (call r (remove id)) cs

new-on : (rules : List RoutingRule) → (new_telemetry_router rules true).telemetry ≡ true
unfolding new_telemetry_router
new-on rules = refl

-- what a call reports at its end
abbrev pub report : TelemetryRouter → RouterCall → GoMap Text ℕ
report r (add id exp env exporter_type) = (add_exporter id exp env exporter_type r).1
report r (remove id) = (remove_exporter id r).1

report-current :
    (r : TelemetryRouter) (c : RouterCall) → r.telemetry ≡ true → report r c ≡ (call r c).by_type
unfolding add_exporter remove_exporter record_count_locked
report-current r (add id exp env exporter_type) e = rw e refl
report-current r (remove id) e = rw e refl

call_all-last :
    (r : TelemetryRouter) (cs : List RouterCall) (c : RouterCall)
    → call_all r (cs ++ c ∷ []) ≡ call (call_all r cs) c
call_all-last r [] c = refl
call_all-last r (d ∷ cs) c = call_all-last (call r d) cs c

-- With a telemetry builder, every call of AddExporter and RemoveExporter, after any history of calls
-- on a new router, reports every type that was registered in this call or before, with the number of
-- registrations of that type that are then in force, zero included.
pub record_count_locked_current :
    (rules : List RoutingRule) (cs : List RouterCall) (c : RouterCall) (t : Text)
    → Seen t (cs ++ c ∷ [])
    → lookup t (report (call_all (new_telemetry_router rules true) cs) c)
      ≡ some (of_type t (after_all [] (cs ++ c ∷ [])) % word)
record_count_locked_current rules cs c t h =
    let r = new_telemetry_router rules true in
    let (n, found) = Seen-Reported t r (cs ++ c ∷ []) h in
    let p = telemetry_router_refines rules true (cs ++ c ∷ []) in
    ap (lookup t) (report-current (call_all r cs) c (call_all-telemetry r cs ∙ new-on rules))
    ∙ ap (λ (s : TelemetryRouter). lookup t s.by_type) (sym (call_all-last r cs c))
    ∙ found
    ∙ ap (λ k. some k) (sym (ap number_at found) ∙ p.typed t)
