-- ===== src/Path.antt =====
-- The property path parser of router.go (`parsePropertyPath`, `parseBracketedKey`,
-- `resolveAttributeName`, `getNestedProperty`). An index `i` into the path is the suffix that starts
-- there, and the position that an error names is computed from its length.
mod Grammar
pub mod Print
mod Steps
pub mod Sound
pub mod Fuel
pub mod Resolve
pub mod Nested
pub mod Tests
use exportercreator.Prelude.{
  ℕ, zero, suc, ◌-◌, Bool, true, false, ◌&&◌, ◌||◌, not, List, [], ◌∷◌, ◌++◌, Option, none, some,
  ◌=?◌, if◌then◌else◌, length, Text, text_Eq,
}
use exportercreator.Prelude.Outcome.{Outcome, ok, err, ◌>>=◌}
use exportercreator.Prelude.GoMap.{lookup}
use exportercreator.Value.{Value, Fields, at_key, nil, text, object, text_map, env}

pub data PathError : Type 0 where
  empty_path leading_bracket trailing_dot out_of_fuel : PathError
  bracket_after_dot empty_name : ℕ → PathError
  unexpected : ℕ → ℕ → PathError
  not_quoted unterminated_escape no_closing_bracket empty_key unterminated_quote : Text → PathError
  unsupported_escape : ℕ → Text → PathError

-- the end of the loop of `parseBracketedKey` at a closing quote and the byte behind it
close_key : Text → Text → ℕ → Text → Outcome PathError (Text × Text)
close_key from key d rest =
    if d =? b']'
    then (if length key =? 0 then err (empty_key from) else ok (key, rest))
    else err (no_closing_bracket from)

-- The loop of `parseBracketedKey`: `from` is the suffix at the bracket, for the messages, `key` what
-- has been written to the builder, and the last argument the suffix at `j`.
unfoldable pub quoted : Text → Text → Text → Outcome PathError (Text × Text)
unfolding close_key
quoted from key [] = err (unterminated_quote from)
quoted from key (c ∷ []) =
    if c =? b'\\'
    then err (unterminated_escape from)
    else if c =? b'"'
    then err (no_closing_bracket from)
    else err (unterminated_quote from)
quoted from key (c ∷ d ∷ rest) =
    let escaped = quoted from (key ++ d ∷ []) rest in
    let plain = quoted from (key ++ c ∷ []) (d ∷ rest) in
    if c =? b'\\'
    then (if d =? b'"' || d =? b'\\' then escaped else err (unsupported_escape d from))
    else if c =? b'"'
    then close_key from key d rest
    else plain

-- `from` starts with the bracket; the second argument is what follows it.
unfoldable pub parse_bracketed_key : Text → Text → Outcome PathError (Text × Text)
parse_bracketed_key from [] = err (not_quoted from)
parse_bracketed_key from (c ∷ rest) =
    if c =? b'"' then quoted from [] rest else err (not_quoted from)

abbrev pub ends_name : ℕ → Bool
ends_name c = c =? b'.' || c =? b'['

-- the inner loop over an unbracketed key: what it passes, and the suffix where it stops
unfoldable pub span_name : Text → Text × Text
span_name [] = ([], [])
span_name (c ∷ cs) =
    let (name, rest) = span_name cs in if ends_name c then ([], c ∷ cs) else (c ∷ name, rest)

unfoldable pub named_key : ℕ → Text × Text → Outcome PathError (Text × Text)
named_key position ([], rest) = err (empty_name position)
named_key position (key, rest) = ok (key, rest)

-- one key, at a suffix that is not empty
unfoldable pub parse_key : Text → Bool → ℕ → Text → Outcome PathError (Text × Text)
unfolding span_name named_key parse_bracketed_key
parse_key path after_dot c rest =
    let position = length path - length (c ∷ rest) in
    if c =? b'['
    then (if after_dot
        then err (bracket_after_dot position)
        else parse_bracketed_key (c ∷ rest) rest)
    else named_key position (span_name (c ∷ rest))

-- The switch behind a key: whether the next key follows a dot, and the suffix where it starts.
unfoldable pub after_key : Text → Text → Outcome PathError (Bool × Text)
after_key path [] = ok (false, [])
after_key path (c ∷ []) =
    if c =? b'.'
    then err trailing_dot
    else if c =? b'['
    then ok (false, c ∷ [])
    else err (unexpected c (length path - 1))
after_key path (c ∷ d ∷ rest) =
    if c =? b'.'
    then ok (true, d ∷ rest)
    else if c =? b'['
    then ok (false, c ∷ d ∷ rest)
    else err (unexpected c (length path - length (c ∷ d ∷ rest)))

-- The loop of `parsePropertyPath`. Each round takes a byte at least, so the length of the path is
-- fuel enough.
unfoldable pub parse_keys : ℕ → Text → List Text → Bool → Text → Outcome PathError (List Text)
unfolding parse_key after_key
parse_keys fuel path keys after_dot [] = ok keys
parse_keys zero path keys after_dot (c ∷ rest) = err out_of_fuel
parse_keys (suc fuel) path keys after_dot (c ∷ rest) = do
  (key, behind) ← parse_key path after_dot c rest
  (dot, next) ← after_key path behind
  parse_keys fuel path (keys ++ key ∷ []) dot next

unfoldable pub parse_property_path : Text → Outcome PathError (List Text)
unfolding parse_keys
parse_property_path [] = err empty_path
parse_property_path (c ∷ rest) =
    if c =? b'['
    then err leading_bracket
    else parse_keys (length (c ∷ rest)) (c ∷ rest) [] false (c ∷ rest)

-- `strings.ContainsRune(s, r)` for an ASCII rune
unfoldable pub contains : ℕ → Text → Bool
contains b [] = false
contains b (c ∷ cs) = c =? b || contains b cs

-- `strings.Join(segments, ".")`
unfoldable pub join : List Text → Text
join [] = []
join (s ∷ []) = s
join (s ∷ t ∷ rest) = s ++ b'.' ∷ join (t ∷ rest)

unfoldable pub resolve_attribute_name : Text → Outcome PathError Text
unfolding contains join
resolve_attribute_name configured =
    if not (contains b'[' configured)
    then ok configured
    else do segments ← parse_property_path configured; ok (join segments)

-- a value of a string map, as an interface
unfoldable pub lookup_text : Option Text → Value
lookup_text none = nil
lookup_text (some v) = text v

-- One round of the loop of `getNestedProperty`; nil ends it.
unfoldable pub descend : Value → Text → Value
unfolding at_key lookup_text lookup
descend (object fs) part = at_key part fs
descend (text_map m) part = lookup_text (lookup part m)
descend (env fs) part = at_key part fs
descend _ part = nil

unfoldable pub unless_nil : Value → Value → Value
unless_nil nil v = nil
unless_nil _ v = v

unfoldable pub walk : Value → List Text → Value
unfolding unless_nil
walk current [] = current
walk current (part ∷ parts) =
    let below = descend current part in unless_nil below (walk below parts)

unfoldable pub get_nested_property : Fields → Text → Value
get_nested_property properties path = elim (parse_property_path path) [
  | ok parts ↦ walk (object properties) parts
  | err e ↦ nil
]
