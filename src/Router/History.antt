-- ===== src/Router/History.antt =====
-- The registrations that a history of calls leaves in force: the abstract view of the router.
use exportercreator.Prelude.{
  ℕ, ◌+◌, ◌≡◌, refl, List, [], ◌∷◌, ◌++◌, arith, length, sum_by, sum_by-append, if◌then◌else◌, Text,
  text_Eq, ◌==◌,
}
use exportercreator.Value.{Fields}
use exportercreator.Router.{RoutedExporter, registered}

-- Registrations in the order in which they were made, each with its endpoint.
abbrev pub Live : Type 0
Live = List (Text × RoutedExporter)

pub data RouterCall : Type 0 where
  add : Text → ℕ → Fields → Text → RouterCall
  remove : Text → RouterCall

-- the registrations of one endpoint, and those of all others
abbrev pub select : Text → Live → List RoutedExporter
select id [] = []
select id ((j, re) ∷ live) = let rest = select id live in if j == id then re ∷ rest else rest

abbrev pub without : Text → Live → Live
without id [] = []
without id ((j, re) ∷ live) = let rest = without id live in if j == id then rest else (j, re) ∷ rest

abbrev pub is_type : Text → RoutedExporter → ℕ
is_type t re = if re.exporter_type == t then 1 else 0

abbrev pub of_type : Text → Live → ℕ
of_type t = sum_by (λ (p : Text × RoutedExporter). is_type t p.1)

abbrev pub after : Live → RouterCall → Live
after live (add id exp env exporter_type) = live ++ (id, registered exp env exporter_type) ∷ []
after live (remove id) = without id live

abbrev pub after_all : Live → List RouterCall → Live
after_all live [] = live
after_all live (c ∷ cs) = after_all (after live c) cs

pub select-snoc :
    (id j : Text) (re : RoutedExporter) (live : Live)
    → select id (live ++ (j, re) ∷ []) ≡ select id live ++ (if j == id then re ∷ [] else [])
select-snoc id j re [] = refl
select-snoc id j re ((i, x) ∷ live) = ground (arith, select-snoc id j re live)

pub select-without :
    (id j : Text) (live : Live)
    → select j (without id live) ≡ (if id == j then [] else select j live)
select-without id j [] = ground arith
select-without id j ((i, x) ∷ live) = ground (
  arith,
  select-without id j live,
  text_Eq.beq_iff i id,
  text_Eq.beq_iff i j,
  text_Eq.beq_iff id j,
)

pub length-without :
    (id : Text) (live : Live) → length (without id live) + length (select id live) ≡ length live
length-without id [] = omega arith
length-without id ((i, x) ∷ live) = ground (arith, length-without id live)

pub of_type-without :
    (t id : Text) (live : Live)
    → of_type t (without id live) + sum_by (is_type t) (select id live) ≡ of_type t live
of_type-without t id [] = omega arith
of_type-without t id ((i, x) ∷ live) = ground (arith, of_type-without t id live)

pub of_type-snoc :
    (t j : Text) (re : RoutedExporter) (live : Live)
    → of_type t (live ++ (j, re) ∷ []) ≡ of_type t live + is_type t re
of_type-snoc t j re live =
    omega (arith, sum_by-append (λ (p : Text × RoutedExporter). is_type t p.1) live ((j, re) ∷ []))
