-- ===== src/Value.antt =====
-- Go's `any` as the program meets it: endpoint properties and user configuration. Maps are lists
-- of entries in the order of a `range`. router.go (`toString`, `flattenProperties`).
pub mod Tests
use exportercreator.Prelude.{
  ℕ, zero, suc, ◌+◌, ◌/◌, ◌%◌, Bool, true, false, List, [], ◌∷◌, ◌++◌, Option, none, some, ltb,
  if◌then◌else◌, Text, text_Eq, ◌==◌, ◌≡◌, refl, arith,
}

mutual
  -- `float` holds the `%g` rendering of a floating point number, and `other` any value of another
  -- type with its `%v` rendering (a named string, a struct). `env` is an observer.EndpointEnv.
  pub data Value : Type 0 where
    nil : Value
    text : Text → Value
    bool : Bool → Value
    int : Bool → ℕ → Value
    float : Text → Value
    other : Text → Value
    texts : List Text → Value
    array : Values → Value
    text_map : List (Text × Text) → Value
    object : Fields → Value
    env : Fields → Value

  pub data Values : Type 0 where
    done : Values
    item : Value → Values → Values

  pub data Fields : Type 0 where
    end : Fields
    field : Text → Value → Fields → Fields

-- `v, ok := m[k]` on a map[string]any
unfoldable pub find : Text → Fields → Option Value
find k end = none
find k (field j v fs) = if j == k then some v else find k fs

-- `m[k]` on a map[string]any: a missing key reads as nil
unfoldable pub at_key : Text → Fields → Value
at_key k end = nil
at_key k (field j v fs) = if j == k then v else at_key k fs

-- `m[k] = v`
unfoldable pub put : Text → Value → Fields → Fields
put k v end = field k v end
put k v (field j w fs) = if j == k then field j v fs else field j w (put k v fs)

-- `delete(m, k)`
unfoldable pub remove : Text → Fields → Fields
remove k end = end
remove k (field j w fs) = let rest = remove k fs in if j == k then rest else field j w rest

-- A range over `source` that copies each entry into `target`.
unfoldable pub copy_into : Fields → Fields → Fields
unfolding put
copy_into target end = target
copy_into target (field k v fs) = copy_into (put k v target) fs

unfoldable pub flatten_properties : Fields → Fields
unfolding copy_into
flatten_properties = copy_into end

-- `%d` of a number that is not negative; the fuel bounds the number of digits.
digits : ℕ → ℕ → Text
digits zero n = []
digits (suc f) n =
    let more = digits f (n / 10) in if ltb n 10 then (48 + n) ∷ [] else more ++ (48 + n % 10) ∷ []

unfoldable pub decimal : Bool → ℕ → Text
unfolding digits
decimal negative n = let d = digits (suc n) n in if negative then b'-' ∷ d else d

unfoldable pub show_bool : Bool → Text
show_bool true = b't' ∷ b'r' ∷ b'u' ∷ b'e' ∷ []
show_bool false = b'f' ∷ b'a' ∷ b'l' ∷ b's' ∷ b'e' ∷ []

-- `fmt.Sprintf("%v", v)`. The rendering of maps and slices is an argument.
unfoldable pub sprint : (Value → Text) → Value → Text
unfolding show_bool decimal
sprint composite nil = b'<' ∷ b'n' ∷ b'i' ∷ b'l' ∷ b'>' ∷ []
sprint composite (text s) = s
sprint composite (bool b) = show_bool b
sprint composite (int negative n) = decimal negative n
sprint composite (float s) = s
sprint composite (other s) = s
sprint composite v = composite v

unfoldable pub to_string : (Value → Text) → Value → Text
unfolding sprint show_bool decimal
to_string composite nil = []
to_string composite (text s) = s
to_string composite (int negative n) = decimal negative n
to_string composite (float s) = s
to_string composite (bool b) = show_bool b
to_string composite v = sprint composite v

-- Every key stands once, as in any Go map.
abbrev pub DistinctKeys : Fields → Type 0
DistinctKeys end = Unit
DistinctKeys (field k v fs) = (find k fs ≡ none) × DistinctKeys fs

pub find-put :
    (k j : Text) (v : Value) (fs : Fields)
    → find j (put k v fs) ≡ (if k == j then some v else find j fs)
unfolding find put
find-put k j v end = refl
find-put k j v (field i w fs) =
    ground (arith, text_Eq.beq_iff k j, text_Eq.beq_iff i k, text_Eq.beq_iff i j, find-put k j v fs)

pub find-remove :
    (k j : Text) (fs : Fields) → find j (remove k fs) ≡ (if k == j then none else find j fs)
unfolding find remove
find-remove k j end = ground arith
find-remove k j (field i w fs) =
    ground
      (arith, text_Eq.beq_iff k j, text_Eq.beq_iff i k, text_Eq.beq_iff i j, find-remove k j fs)
