-- ===== src/Value/Tests.antt =====
-- Runs of the value operations on concrete data.
use Prim.Native.Char.{code}
use Prim.Native.String.{String}
use exportercreator.Prelude.{◌≡◌, refl, true, false, [], ◌∷◌, Text}
use exportercreator.Value.{int, bool, to_string}

-- The bytes of an ASCII literal.
abbrev pub bytes : String → Text
bytes String.[] = []
bytes (String.◌∷◌ letter rest) = code letter ∷ bytes rest

decimal_runs : to_string (λ v. []) (int true 4317) ≡ bytes "-4317"
unfolding to_string
decimal_runs = refl

bool_runs : to_string (λ v. []) (bool false) ≡ bytes "false"
unfolding to_string
bool_runs = refl
