-- ===== src/Expansion.antt =====
-- The backtick expressions of config_expansion.go (`evalBackticksInConfigValue`, `expandConfig`,
-- `expandAny`, `removeNilValuesFromMap`). The expression language is a library: `eval` stands for
-- `expr.Eval`, and `composite` for the `%v` rendering of maps and slices.
mod Pieces
mod Scan
pub mod Template
pub mod Tree
pub mod Prune
pub mod Entries
pub mod Tests
use exportercreator.Prelude.{
  ℕ, ◌+◌, Bool, true, false, ◌&&◌, ◌||◌, List, [], ◌∷◌, ◌++◌, Option, none, some, ◌=?◌, leb,
  if◌then◌else◌, Text, text_Eq, ◌==◌,
}
use exportercreator.Prelude.Outcome.{Outcome, ok, err, ◌>>=◌}
use exportercreator.Value.{
  Value, Values, Fields, nil, text, texts, array, object, done, item, end, field, sprint, put,
}

-- what `expr.Eval` returns: a value, or an error with its message
pub data Evaluated : Type 0 where
  value : Value → Evaluated
  failure : Text → Evaluated

pub data ExpandError : Type 0 where
  dangling_escape empty_expression : ExpandError
  eval_failed : Text → ExpandError
  unbalanced : ℕ → ExpandError

-- the white space of `strings.TrimSpace`, by the length of its UTF-8 encoding
space1 : ℕ → Bool
space1 a = (leb 9 a && leb a 13) || a =? 32

space2 : ℕ → ℕ → Bool
space2 a b = a =? 0xc2 && (b =? 0x85 || b =? 0xa0)

space3 : ℕ → ℕ → ℕ → Bool
space3 a b c =
    (a =? 0xe1 && b =? 0x9a && c =? 0x80)
    || (a =? 0xe2
        && b =? 0x80
        && ((leb 0x80 c && leb c 0x8a) || c =? 0xa8 || c =? 0xa9 || c =? 0xaf))
    || (a =? 0xe2 && b =? 0x81 && c =? 0x9f)
    || (a =? 0xe3 && b =? 0x80 && c =? 0x80)

-- `strings.TrimSpace(s) == ""`
unfoldable pub is_blank : Text → Bool
unfolding space1 space2 space3
is_blank [] = true
is_blank (a ∷ []) = space1 a
is_blank (a ∷ b ∷ []) = let one = is_blank (b ∷ []) in if space1 a then one else space2 a b
is_blank (a ∷ b ∷ c ∷ rest) =
    let one = is_blank (b ∷ c ∷ rest) in
    let two = is_blank (c ∷ rest) in
    let three = is_blank rest in
    if space1 a then one else if space2 a b then two else if space3 a b c then three else false

starts_with : Text → Text → Bool
starts_with [] s = true
starts_with (c ∷ t) [] = false
starts_with (c ∷ t) (d ∷ s) = c =? d && starts_with t s

-- `strings.Contains(s, t)`
contains_text : Text → Text → Bool
unfolding starts_with
contains_text t [] = starts_with t []
contains_text t (c ∷ s) = starts_with t (c ∷ s) || contains_text t s

abbrev cannot_fetch : Text
cannot_fetch =
    b'c' ∷ b'a' ∷ b'n' ∷ b'n' ∷ b'o' ∷ b't' ∷ b' ' ∷ b'f' ∷ b'e' ∷ b't' ∷ b'c' ∷ b'h' ∷ []

abbrev from_nil : Text
from_nil = b'f' ∷ b'r' ∷ b'o' ∷ b'm' ∷ b' ' ∷ b'<' ∷ b'n' ∷ b'i' ∷ b'l' ∷ b'>' ∷ []

-- the error that stands for an optional field that is missing
unfoldable pub is_missing_field : Text → Bool
unfolding contains_text
is_missing_field message = contains_text cannot_fetch message && contains_text from_nil message

-- Where the scan stands: outside, or in an expression with the position where it starts and the raw
-- text since then (`configValue[exprStartIndex:i]`).
pub data Mode : Type 0 where
  outside : Mode
  inside : ℕ → Text → Mode

-- What follows a closing backtick: an early return, or the output and the expansions to go on with.
pub data Closed : Type 0 where
  return : Outcome ExpandError Value → Closed
  go_on : Text → List Value → Closed

-- a byte that is copied: to the output, or to the expression's text
unfoldable pub copied : ℕ → Mode → Text → Mode × Text
copied c outside output = (outside, output ++ c ∷ [])
copied c (inside start raw) output = (inside start (raw ++ c ∷ []), output)

-- An escaped backtick: it goes to the output in either mode, and its two bytes to the text of an
-- expression that is open.
unfoldable pub escaped : Mode → Mode
escaped outside = outside
escaped (inside start raw) = inside start (raw ++ b'\\' ∷ b'`' ∷ [])

-- A map entry is kept unless it expanded to nil.
unfoldable pub put_unless_nil : Text → Value → Fields → Fields
put_unless_nil k nil fs = fs
put_unless_nil k v fs = field k v fs

module _ (composite : Value → Text) (eval : Text → Fields → Evaluated) where
  unfoldable pub evaluated : Text → List Value → Evaluated → Closed
  evaluated output expansions (value v) =
      go_on (output ++ sprint composite v) (expansions ++ v ∷ [])
  evaluated output expansions (failure message) =
      return (if is_missing_field message then ok nil else err (eval_failed message))

  unfoldable pub close_expression : Fields → Text → Text → List Value → Closed
  close_expression env expr_text output expansions =
      if is_blank expr_text
      then return (err empty_expression)
      else evaluated output expansions (eval expr_text env)

  -- the two tests after the loop
  unfoldable pub typed_result : Text → List Value → Value
  typed_result output (v ∷ []) = if output == sprint composite v then v else text output
  typed_result output _ = text output

  unfoldable pub finish : Mode → Text → List Value → Outcome ExpandError Value
  unfolding typed_result
  finish outside output expansions = ok (typed_result output expansions)
  finish (inside start raw) output expansions = err (unbalanced start)

  -- A backtick at index `i`; `next` is the rest of the loop.
  unfoldable pub backtick :
      Fields
      → ℕ
      → Mode
      → Text
      → List Value
      → (Mode → Text → List Value → Outcome ExpandError Value)
      → Outcome ExpandError Value
  unfolding close_expression evaluated
  backtick env i outside output expansions next = next (inside (i + 1) []) output expansions
  backtick env i (inside start raw) output expansions next =
      elim (close_expression env raw output expansions) [
        | return r ↦ r
        | go_on output' expansions' ↦ next outside output' expansions'
      ]

  -- The loop of `evalBackticksInConfigValue`, at index `i` with the bytes from there.
  unfoldable pub scan : Fields → ℕ → Text → Mode → Text → List Value → Outcome ExpandError Value
  unfolding finish copied escaped backtick
  scan env i [] mode output expansions = finish mode output expansions
  scan env i (c ∷ []) mode output expansions =
      let next = λ (m : Mode) (o : Text) (x : List Value). scan env (i + 1) [] m o x in
      if c =? b'\\'
      then err dangling_escape
      else if c =? b'`'
      then backtick env i mode output expansions next
      else (let (mode', output') = copied c mode output in next mode' output' expansions)
  scan env i (c ∷ d ∷ rest) mode output expansions =
      let next = λ (m : Mode) (o : Text) (x : List Value). scan env (i + 1) (d ∷ rest) m o x in
      let after = λ (m : Mode) (o : Text) (x : List Value). scan env (i + 2) rest m o x in
      let (mode', output') = copied c mode output in
      if c =? b'\\'
      then (if d =? b'`'
          then after (escaped mode) (output ++ b'`' ∷ []) expansions
          else next mode' output' expansions)
      else if c =? b'`'
      then backtick env i mode output expansions next
      else next mode' output' expansions

  unfoldable pub eval_backticks : Text → Fields → Outcome ExpandError Value
  unfolding scan
  eval_backticks config_value env = scan env 0 config_value outside [] []

  -- a []string, item by item
  unfoldable pub expand_texts : Fields → List Text → Outcome ExpandError Values
  expand_texts env [] = ok done
  expand_texts env (s ∷ ss) = do v ← eval_backticks s env; vs ← expand_texts env ss; ok (item v vs)

  unfoldable mutual
    unfolding put_unless_nil expand_texts

    pub expand_any : Fields → Value → Outcome ExpandError Value
    expand_any env (text s) = eval_backticks s env
    expand_any env (texts ss) = do vs ← expand_texts env ss; ok (array vs)
    expand_any env (array vs) = do ws ← expand_values env vs; ok (array ws)
    expand_any env (object fs) = do gs ← expand_fields env fs; ok (object gs)
    expand_any env v = ok v

    pub expand_values : Fields → Values → Outcome ExpandError Values
    expand_values env done = ok done
    expand_values env (item v vs) = do
      w ← expand_any env v
      ws ← expand_values env vs
      ok (item w ws)

    pub expand_fields : Fields → Fields → Outcome ExpandError Fields
    expand_fields env end = ok end
    expand_fields env (field k v fs) = do
      w ← expand_any env v
      gs ← expand_fields env fs
      ok (put_unless_nil k w gs)

  unfoldable pub expand_config : Fields → Fields → Outcome ExpandError Fields
  expand_config cfg env = expand_fields env cfg

-- The nested map of an entry is kept only if something is left in it.
unfoldable pub put_cleaned : Text → Fields → Fields → Fields
put_cleaned k end rest = rest
put_cleaned k cleaned rest = field k (object cleaned) rest

unfoldable mutual
  unfolding put_cleaned

  -- what is left of an entry, in front of what is left of the entries after it
  pub cleaned_entry : Text → Value → Fields → Fields
  cleaned_entry k nil rest = rest
  cleaned_entry k (object fs) rest = put_cleaned k (remove_nil_values_from_map fs) rest
  cleaned_entry k v rest = field k v rest

  pub remove_nil_values_from_map : Fields → Fields
  remove_nil_values_from_map end = end
  remove_nil_values_from_map (field k v fs) = cleaned_entry k v (remove_nil_values_from_map fs)
