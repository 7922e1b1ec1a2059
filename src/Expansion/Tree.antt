-- ===== src/Expansion/Tree.antt =====
-- `expandConfig` and `removeNilValuesFromMap` entry by entry.
use exportercreator.Prelude.{
  ◌≡◌, refl, ap, sym, ◌∙◌, false, Option, none, some, if◌then◌else◌, Bool-cases, inl, inr, Text,
  text_Eq, ◌==◌,
}
use exportercreator.Prelude.Outcome.{Outcome, ok, ◌>>=◌, >>=-eq-ok}
use exportercreator.Value.{Value, Fields, nil, text, end, field, find, DistinctKeys}
use exportercreator.Expansion.{
  Evaluated, ExpandError, put_unless_nil, expand_any, expand_fields, expand_config,
}

abbrev pub some_unless_nil : Value → Option Value
some_unless_nil nil = none
some_unless_nil v = some v

find-put_unless_nil :
    (j k : Text) (w : Value) (fs : Fields)
    → find k fs ≡ none
    → find k (put_unless_nil j w fs) ≡ (if j == k then some_unless_nil w else none)
unfolding find put_unless_nil
find-put_unless_nil j k nil fs h = elim (Bool-cases (j == k)) [
  | inl same ↦ rw same h
  | inr other ↦ rw other h
]
find-put_unless_nil j k (text s) fs h = rw h
find-put_unless_nil j k w fs h = rw h

find-put_unless_nil_ne :
    (j k : Text) (w : Value) (fs : Fields)
    → (j == k) ≡ false
    → find k (put_unless_nil j w fs) ≡ find k fs
unfolding find put_unless_nil
find-put_unless_nil_ne j k nil fs h = refl
find-put_unless_nil_ne j k (text s) fs h = rw h
find-put_unless_nil_ne j k w fs h = rw h

abbrev pub present : Option Value → Outcome ExpandError (Option Value)
present o = ok o

pub absent : (o : Option Value) → present o ≡ ok none → o ≡ none
absent o h = cc

module _ (composite : Value → Text) (eval : Text → Fields → Evaluated) (env : Fields) where
  -- What an entry of the configuration expands to: an entry that expands to nil is gone.
  abbrev pub expanded_entry : Option Value → Outcome ExpandError (Option Value)
  expanded_entry none = ok none
  expanded_entry (some v) = expand_any composite eval env v >>= λ w. ok (some_unless_nil w)

  find-expand_fields :
      (cfg gs : Fields) (k : Text)
      → DistinctKeys cfg
      → expand_fields composite eval env cfg ≡ ok gs
      → expanded_entry (find k cfg) ≡ ok (find k gs)
  unfolding expand_fields find
  find-expand_fields end gs k d h = let q : end ≡ gs = cc in rw (sym q)
  find-expand_fields (field j v fs) gs k d h =
      let (w, hw, rest) = >>=-eq-ok (expand_any composite eval env v) _ h in
      let (gs', hg, last) = >>=-eq-ok (expand_fields composite eval env fs) _ rest in
      let q : put_unless_nil j w gs' ≡ gs = cc in
      let ih = λ (i : Text). find-expand_fields fs gs' i d.1 hg in
      elim (Bool-cases (j == k)) [
        | inl same ↦
            let e : j ≡ k = (text_Eq.beq_iff j k).0 same in
            let missing : find k gs' ≡ none =
              absent (find k gs')
                (sym (ih k) ∙ ap expanded_entry (ap (λ i. find i fs) (sym e) ∙ d.0)) in
            rw (same, hw)
              (ap ok (sym (ap (find k) (sym q) ∙ find-put_unless_nil j k w gs' missing ∙ rw same)))
        | inr other ↦
            rw other (ih k ∙ ap ok (sym (find-put_unless_nil_ne j k w gs' other) ∙ ap (find k) q))
      ]

  put_unless_nil-DistinctKeys :
      (k : Text) (w : Value) (fs : Fields)
      → find k fs ≡ none
      → DistinctKeys fs
      → DistinctKeys (put_unless_nil k w fs)
  unfolding put_unless_nil
  put_unless_nil-DistinctKeys k nil fs h d = d
  put_unless_nil-DistinctKeys k (text s) fs h d = (h, d)
  put_unless_nil-DistinctKeys k w fs h d = (h, d)

  expand_fields-DistinctKeys :
      (cfg gs : Fields)
      → DistinctKeys cfg
      → expand_fields composite eval env cfg ≡ ok gs
      → DistinctKeys gs
  unfolding expand_fields
  expand_fields-DistinctKeys end gs d h = let q : end ≡ gs = cc in rw (sym q) tt
  expand_fields-DistinctKeys (field j v fs) gs d h =
      let (w, hw, rest) = >>=-eq-ok (expand_any composite eval env v) _ h in
      let (gs', hg, last) = >>=-eq-ok (expand_fields composite eval env fs) _ rest in
      let q : put_unless_nil j w gs' ≡ gs = cc in
      let missing : find j gs' ≡ none =
        absent (find j gs') (sym (find-expand_fields fs gs' j d.1 hg) ∙ ap expanded_entry d.0) in
      rw (sym q)
        (put_unless_nil-DistinctKeys j w gs' missing (expand_fields-DistinctKeys fs gs' d.1 hg))

  pub expand_config-DistinctKeys :
      (cfg gs : Fields)
      → DistinctKeys cfg
      → expand_config composite eval cfg env ≡ ok gs
      → DistinctKeys gs
  unfolding expand_config
  expand_config-DistinctKeys cfg gs d h = expand_fields-DistinctKeys cfg gs d h

  -- When a configuration expands, each key has what its own entry expands to, and no other keys are
  -- there.
  pub find-expand_config :
      (cfg gs : Fields) (k : Text)
      → DistinctKeys cfg
      → expand_config composite eval cfg env ≡ ok gs
      → expanded_entry (find k cfg) ≡ ok (find k gs)
  unfolding expand_config
  find-expand_config cfg gs k d h = find-expand_fields cfg gs k d h
