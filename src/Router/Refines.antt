-- ===== src/Router/Refines.antt =====
-- The router refines the list of registrations in force: its map, its count and its counts by type
-- follow every history of calls.
use exportercreator.Prelude.{
  ℕ, ◌+◌, ◌%◌, ◌≡◌, refl, ap, sym, ◌∙◌, Bool, List, [], ◌∷◌, ◌++◌, arith, length, length-append,
  sum_by, if◌then◌else◌, Text, text_Eq, ◌==◌, Bool-cases, inl, inr, word, int_add, int_sub,
  int_add-one, int_sub-by,
}
use exportercreator.Prelude.GoMap.{
  GoMap, Distinct, lookup, insert, total, insert-Distinct, delete-Distinct,
}
use exportercreator.Prelude.MultiMap.{
  slice_at, number_at, sizes, lookup-push, slice-delete, total-push, total-delete_slice,
  number-insert,
}
use exportercreator.Value.{Fields}
use exportercreator.Router.{
  RoutingRule, RoutedExporter, TelemetryRouter, new_telemetry_router, registered, add_exporter,
  remove_exporter, decrement_types,
}
use exportercreator.Router.History.{
  Live, RouterCall, add, remove, select, without, is_type, of_type, after, after_all, select-snoc,
  of_type-snoc, select-without, length-without, of_type-without,
}

-- The router's state stands for the registrations.
pub record Represents (r : TelemetryRouter) (live : Live) : Type 0 where
  pub distinct : Distinct r.exporters
  pub distinct_types : Distinct r.by_type
  pub holds : (id : Text) → slice_at (lookup id r.exporters) ≡ select id live
  pub sized : total sizes r.exporters ≡ length live
  pub counted : r.count ≡ length live % word
  pub typed : (t : Text) → number_at (lookup t r.by_type) ≡ of_type t live % word

decrement_types-Distinct :
    (gone : List RoutedExporter) (m : GoMap Text ℕ) → Distinct m → Distinct (decrement_types gone m)
unfolding decrement_types
decrement_types-Distinct [] m h = h
decrement_types-Distinct (re ∷ res) m h =
    decrement_types-Distinct res _ (insert-Distinct re.exporter_type _ m h)

-- Each type is decremented once for each exporter of that type.
decrement_types-lookup :
    (t : Text) (n : ℕ) (gone : List RoutedExporter) (m : GoMap Text ℕ)
    → number_at (lookup t m) ≡ (n + sum_by (is_type t) gone) % word
    → number_at (lookup t (decrement_types gone m)) ≡ n % word
unfolding decrement_types
decrement_types-lookup t n [] m h = rw h (ap (λ k. k % word) (omega arith))
decrement_types-lookup t n (re ∷ res) m h =
    let k = re.exporter_type in
    let left = int_sub (number_at (lookup k m)) 1 in
    decrement_types-lookup t n res (insert k left m) (
      number-insert k t left m ∙ elim (Bool-cases (k == t)) [
        | inl same ↦
            let q : k ≡ t = (text_Eq.beq_iff k t).0 same in
            let c : is_type t re ≡ 1 = rw same in
            rw (same, q)
              (int_sub-by _ (n + sum_by (is_type t) res) 1 (h ∙ ap (λ i. i % word) (omega arith)))
        | inr other ↦
            let c : is_type t re ≡ 0 = rw other in rw other (h ∙ ap (λ i. i % word) (omega arith))
      ])

module _ {r : TelemetryRouter} {live : Live} (p : Represents r live) where
  added_type :
      (t id : Text) (re : RoutedExporter) (exporter_type : Text)
      → re.exporter_type ≡ exporter_type
      → (if exporter_type == t
          then int_add (number_at (lookup exporter_type r.by_type)) 1
          else number_at (lookup t r.by_type))
        ≡ of_type t (live ++ (id, re) ∷ []) % word
  added_type t id re k own = elim (Bool-cases (k == t)) [
    | inl same ↦
        let q : k ≡ t = (text_Eq.beq_iff k t).0 same in
        let c : is_type t re ≡ 1 = rw (own, same) in
        rw same (
          int_add-one _ (of_type k live) (p.typed k)
          ∙ ap (λ n. n % word)
              (omega (arith, of_type-snoc t id re live, ap (λ i. of_type i live) q)))
    | inr other ↦
        let c : is_type t re ≡ 0 = rw (own, other) in
        rw other (p.typed t ∙ ap (λ n. n % word) (omega (arith, of_type-snoc t id re live)))
  ]

  pub add_exporter-Represents :
      (id : Text) (exp : ℕ) (env : Fields) (exporter_type : Text)
      → Represents
          (add_exporter id exp env exporter_type r).0
          (after live (add id exp env exporter_type))
  unfolding add_exporter
  add_exporter-Represents id exp env exporter_type =
      let re = registered exp env exporter_type in
      record {
        distinct = insert-Distinct id _ r.exporters p.distinct;
        distinct_types = insert-Distinct exporter_type _ r.by_type p.distinct_types;
        holds = λ j.
            lookup-push id j re r.exporters
            ∙ ap (λ xs. xs ++ (if id == j then re ∷ [] else [])) (p.holds j)
            ∙ sym (select-snoc j id re live);
        sized =
            omega
              (arith, total-push id re r.exporters, p.sized, length-append live ((id, re) ∷ []));
        counted =
            int_add-one r.count (length live) p.counted
            ∙ ap (λ n. n % word) (omega (arith, length-append live ((id, re) ∷ [])));
        typed =
            λ t. number-insert exporter_type t _ r.by_type ∙ added_type t id re exporter_type refl;
      }

  pub remove_exporter-Represents :
      (id : Text) → Represents (remove_exporter id r).0 (without id live)
  unfolding remove_exporter
  remove_exporter-Represents id =
      let gone = slice_at (lookup id r.exporters) in
      record {
        distinct = delete-Distinct id r.exporters p.distinct;
        distinct_types = decrement_types-Distinct gone r.by_type p.distinct_types;
        holds = λ j.
            slice-delete id j r.exporters
            ∙ ap (λ xs. if id == j then [] else xs) (p.holds j)
            ∙ sym (select-without id j live);
        sized = omega (
          arith,
          total-delete_slice id r.exporters p.distinct,
          p.sized,
          length-without id live,
          ap length (p.holds id),
        );
        counted = int_sub-by r.count (length (without id live)) (length gone) (
            p.counted
            ∙ ap (λ n. n % word) (omega (arith, length-without id live, ap length (p.holds id))));
        typed = λ t. decrement_types-lookup t (of_type t (without id live)) gone r.by_type (
            p.typed t
            ∙ ap (λ n. n % word)
                (omega (arith, of_type-without t id live, ap (sum_by (is_type t)) (p.holds id))));
      }

abbrev pub call : TelemetryRouter → RouterCall → TelemetryRouter
call r (add id exp env exporter_type) = (add_exporter id exp env exporter_type r).0
call r (remove id) = (remove_exporter id r).0

abbrev pub call_all : TelemetryRouter → List RouterCall → TelemetryRouter
call_all r [] = r
call_all r (c ∷ cs) = call_all (call r c) cs

call-Represents :
    {r : TelemetryRouter} {live : Live} (c : RouterCall)
    → Represents r live
    → Represents (call r c) (after live c)
call-Represents (add id exp env exporter_type) p =
    add_exporter-Represents p id exp env exporter_type
call-Represents (remove id) p = remove_exporter-Represents p id

call_all-Represents :
    (r : TelemetryRouter) (live : Live) (cs : List RouterCall)
    → Represents r live
    → Represents (call_all r cs) (after_all live cs)
call_all-Represents r live [] p = p
call_all-Represents r live (c ∷ cs) p =
    call_all-Represents (call r c) (after live c) cs (call-Represents c p)

pub new-Represents :
    (rules : List RoutingRule) (telemetry : Bool)
    → Represents (new_telemetry_router rules telemetry) []
unfolding new_telemetry_router lookup total
new-Represents rules telemetry = record {
  distinct = tt;
  distinct_types = tt;
  holds = λ id. refl;
  sized = refl;
  counted = refl;
  typed = λ t. refl;
}

-- After any history of AddExporter and RemoveExporter calls on a new router, its state stands for
-- the registrations in force: under each endpoint those of that endpoint in order, `count` their
-- number, and for each type `byType` the number of those of that type, as 64-bit words.
pub telemetry_router_refines :
    (rules : List RoutingRule) (telemetry : Bool) (cs : List RouterCall)
    → Represents (call_all (new_telemetry_router rules telemetry) cs) (after_all [] cs)
telemetry_router_refines rules telemetry cs =
    call_all-Represents _ [] cs (new-Represents rules telemetry)
