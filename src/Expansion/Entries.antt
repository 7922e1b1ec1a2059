-- ===== src/Expansion/Entries.antt =====
-- `removeNilValuesFromMap` entry by entry.
use exportercreator.Prelude.{
  ◌≡◌, refl, ap, sym, ◌∙◌, true, false, Option, none, some, if◌then◌else◌, Bool-cases, inl, inr,
  Text, text_Eq, ◌==◌,
}
use exportercreator.Value.{Value, Fields, nil, text, object, end, field, find, DistinctKeys}
use exportercreator.Expansion.{put_cleaned, cleaned_entry, remove_nil_values_from_map}

-- a nested map, if something is left in it
abbrev pub some_unless_end : Fields → Option Value
some_unless_end end = none
some_unless_end fs = some (object fs)

-- What is left of an entry: nothing of a nil one, a nested map's own rest if there is any, and any
-- other value as it is.
abbrev pub left_of : Option Value → Option Value
left_of none = none
left_of (some nil) = none
left_of (some (object fs)) = some_unless_end (remove_nil_values_from_map fs)
left_of (some v) = some v

find-put_cleaned :
    (j k : Text) (fs rest : Fields)
    → find k rest ≡ none
    → find k (put_cleaned j fs rest) ≡ (if j == k then some_unless_end fs else none)
unfolding find put_cleaned
find-put_cleaned j k end rest h = elim (Bool-cases (j == k)) [
  | inl same ↦ rw same h
  | inr other ↦ rw other h
]
find-put_cleaned j k (field i v fs) rest h = rw h

find-put_cleaned_ne :
    (j k : Text) (fs rest : Fields)
    → (j == k) ≡ false
    → find k (put_cleaned j fs rest) ≡ find k rest
unfolding find put_cleaned
find-put_cleaned_ne j k end rest h = refl
find-put_cleaned_ne j k (field i v fs) rest h = rw h

find-cleaned_entry :
    (j k : Text) (v : Value) (rest : Fields)
    → (j == k) ≡ true
    → find k rest ≡ none
    → find k (cleaned_entry j v rest) ≡ left_of (some v)
unfolding find cleaned_entry
find-cleaned_entry j k nil rest same h = h
find-cleaned_entry j k (object fs) rest same h =
    find-put_cleaned j k (remove_nil_values_from_map fs) rest h ∙ rw same
find-cleaned_entry j k (text s) rest same h = rw same
find-cleaned_entry j k v rest same h = rw same

find-cleaned_entry_ne :
    (j k : Text) (v : Value) (rest : Fields)
    → (j == k) ≡ false
    → find k (cleaned_entry j v rest) ≡ find k rest
unfolding find cleaned_entry
find-cleaned_entry_ne j k nil rest other = refl
find-cleaned_entry_ne j k (object fs) rest other =
    find-put_cleaned_ne j k (remove_nil_values_from_map fs) rest other
find-cleaned_entry_ne j k (text s) rest other = rw other
find-cleaned_entry_ne j k v rest other = rw other

-- In a map without repeated keys, each key has what is left of its own entry.
pub find-remove_nil_values_from_map :
    (fs : Fields) (k : Text)
    → DistinctKeys fs
    → find k (remove_nil_values_from_map fs) ≡ left_of (find k fs)
unfolding find remove_nil_values_from_map
find-remove_nil_values_from_map end k d = refl
find-remove_nil_values_from_map (field j v fs) k d =
    let rest = remove_nil_values_from_map fs in
    let ih = find-remove_nil_values_from_map fs k d.1 in
    elim (Bool-cases (j == k)) [
      | inl same ↦
          let e : j ≡ k = (text_Eq.beq_iff j k).0 same in
          let missing : find k rest ≡ none = ih ∙ ap left_of (ap (λ i. find i fs) (sym e) ∙ d.0) in
          find-cleaned_entry j k v rest same missing ∙ rw same
      | inr other ↦ find-cleaned_entry_ne j k v rest other ∙ ih ∙ rw other
    ]
