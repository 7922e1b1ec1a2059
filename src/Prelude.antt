-- ===== src/Prelude.antt =====
-- The names that the other modules share: the libraries', passed on, and those of the children.
mod Tests
mod Lists
mod Word
mod Equality
pub mod Outcome
pub mod GoMap
pub mod Member
pub mod MultiMap
pub use Tests.*
pub use Lists.*
pub use Equality.{Eq, ◌==◌, nat_Eq, text_Eq, pair_Eq, beq_refl, beq_false, text_eq_iff, Text}
unfoldable pub use Equality.{text_eq}
pub use Word.{word, int_add_mod, int_sub_mod, int_add-one, int_sub-by}
unfoldable pub use Word.{int_add, int_sub, is_positive}
pub use Prim.Native.Nat.{ℕ, zero, suc, ◌+◌, ◌-◌, ◌*◌, ◌/◌, ◌%◌, ◌^◌, ◌≤◌, ◌<◌}
pub use mathlib.Core.Path.{◌≡◌, refl, sym, ap, ◌∙◌}
pub use mathlib.Core.Logic.{◌≢◌, ◌↔◌, ◌⊎◌, inl, inr}
pub use mathlib.Core.Bool.{Bool, true, false, not, ◌&&◌, ◌||◌}
pub use mathlib.Core.Option.{Option, none, some}
pub use mathlib.Core.List.{List, [], ◌∷◌, ◌++◌, map}
pub use native.Mathlib.Omega.{arith}
