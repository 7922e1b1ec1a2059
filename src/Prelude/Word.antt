-- ===== src/Prelude/Word.antt =====
-- Go's `int` and `int64` on a 64-bit platform, as the bit pattern of the two's complement.
use Prim.Native.Nat.{ℕ, ◌+◌, ◌-◌, ◌%◌, ◌^◌}
use mathlib.Core.Path.{◌≡◌}
use mathlib.Core.Bool.{Bool, ◌&&◌}
use native.Mathlib.Omega.{arith}
use exportercreator.Prelude.Tests.{ltb}

abbrev pub word : ℕ
word = 2 ^ 64

unfoldable pub int_add : ℕ → ℕ → ℕ
int_add a b = (a + b) % word

unfoldable pub int_sub : ℕ → ℕ → ℕ
int_sub a b = (a + (word - b % word)) % word

-- `n > 0` on a signed number: not zero, and the sign bit is clear.
unfoldable pub is_positive : ℕ → Bool
is_positive n = ltb 0 n && ltb n (2 ^ 63)

-- Words that stand for sums of counts follow the counts.
pub int_add_mod : (a b : ℕ) → int_add (a % word) (b % word) ≡ (a + b) % word
unfolding int_add
int_add_mod a b = omega arith

pub int_sub_mod : (a b : ℕ) → int_sub ((a + b) % word) (b % word) ≡ a % word
unfolding int_sub
int_sub_mod a b = omega arith

-- One step up and down, from a word that is known modulo the word size.
pub int_add-one : (a n : ℕ) → a ≡ n % word → int_add a 1 ≡ (n + 1) % word
unfolding int_add
int_add-one a n h = omega arith

pub int_sub-by : (a n k : ℕ) → a ≡ (n + k) % word → int_sub a (k % word) ≡ n % word
unfolding int_sub
int_sub-by a n k h = omega arith
