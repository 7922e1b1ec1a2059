-- ===== src/Component.antt =====
-- The identities and endpoints that the components share: component.ID, pipeline signals, and
-- observer.Endpoint as far as the program reads it. observerhandler.go (`endpointTypeOf`).
use exportercreator.Prelude.{
  ◌≡◌, ◌↔◌, Bool, true, ◌&&◌, [], ◌∷◌, Option, none, some, Text, text_Eq, ◌==◌, Eq, arith,
}
use exportercreator.Value.{Fields}

-- component.ID: a type and a name
pub record ComponentId : Type 0 where
  pub kind : Text
  pub name : Text

abbrev pub id_beq : ComponentId → ComponentId → Bool
id_beq a b = a.kind == b.kind && a.name == b.name

pub id_beq_iff : (a b : ComponentId) → (id_beq a b ≡ true) ↔ (a ≡ b)
id_beq_iff a b = ground (arith, text_Eq.beq_iff a.kind b.kind, text_Eq.beq_iff a.name b.name)

instance abbrev pub id_Eq : Eq ComponentId
id_Eq = record { beq = id_beq; beq_iff = id_beq_iff }

pub data Signal : Type 0 where
  logs metrics traces : Signal

-- An endpoint as an observer reports it: `details` is what `Details.Type()` gives where there are
-- details, and `env` what `Env()` gives where it does not fail.
pub record Endpoint : Type 0 where
  pub id : Text
  pub target : Text
  pub details : Option Text
  pub env : Option Fields

abbrev pub unknown : Text
unknown = b'u' ∷ b'n' ∷ b'k' ∷ b'n' ∷ b'o' ∷ b'w' ∷ b'n' ∷ []

unfoldable pub endpoint_type_of : Endpoint → Text
endpoint_type_of e = elim e.details [ none ↦ unknown | some t ↦ t ]
