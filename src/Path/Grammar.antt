-- ===== src/Path/Grammar.antt =====
-- The paths that `parsePropertyPath` documents, as a printer from the keys: a name, then dotted
-- names and quoted keys in brackets.
use exportercreator.Prelude.{
  ℕ, Bool, true, false, ◌||◌, ◌≢◌, ◌≡◌, refl, List, [], ◌∷◌, ◌++◌, All, ◌=?◌, if◌then◌else◌, Text,
  arith, ap, ◌∙◌, sym, Bool-cases, inl, inr,
}
use mathlib.Core.List.{append-nil, append_assoc}
use exportercreator.Prelude.Outcome.{ok}
use exportercreator.Path.{ends_name, span_name, quoted, close_key}

pub data Segment : Type 0 where
  dotted : Text → Segment
  bracketed : Text → Segment

abbrev pub key : Segment → Text
key (dotted k) = k
key (bracketed k) = k

abbrev pub is_escaped : ℕ → Bool
is_escaped c = c =? b'"' || c =? b'\\'

abbrev pub escape : Text → Text
escape [] = []
escape (c ∷ cs) = if is_escaped c then b'\\' ∷ c ∷ escape cs else c ∷ escape cs

-- A segment in front of what follows it.
abbrev pub print_segment : Segment → Text → Text
print_segment (dotted k) rest = b'.' ∷ k ++ rest
print_segment (bracketed k) rest = b'[' ∷ b'"' ∷ escape k ++ b'"' ∷ b']' ∷ rest

abbrev pub print_segments : List Segment → Text
print_segments [] = []
print_segments (s ∷ ss) = print_segment s (print_segments ss)

abbrev pub print_path : Text → List Segment → Text
print_path name segments = name ++ print_segments segments

abbrev pub PlainBytes : Text → Type 0
PlainBytes = All (λ c. ends_name c ≡ false)

abbrev pub IsName : Text → Type 0
IsName k = (k ≢ []) × PlainBytes k

abbrev pub IsSegment : Segment → Type 0
IsSegment (dotted k) = IsName k
IsSegment (bracketed k) = k ≢ []

abbrev pub keys : List Segment → List Text
keys [] = []
keys (s ∷ ss) = key s ∷ keys ss

-- A name ends at the end of the path, at a dot or at a bracket.
abbrev pub Stops : Text → Type 0
Stops [] = Unit
Stops (c ∷ cs) = ends_name c ≡ true

pub print_segments-Stops : (ss : List Segment) → Stops (print_segments ss)
print_segments-Stops [] = tt
print_segments-Stops (dotted k ∷ ss) = refl
print_segments-Stops (bracketed k ∷ ss) = refl

pub span_name-append :
    (k rest : Text) → PlainBytes k → Stops rest → span_name (k ++ rest) ≡ (k, rest)
unfolding span_name
span_name-append [] [] h s = refl
span_name-append [] (c ∷ rest) h s = ground arith
span_name-append (c ∷ k) rest h s = ground (arith, span_name-append k rest h.1 s)

pub span_name_sound :
    (t name rest : Text) → span_name t ≡ (name, rest) → PlainBytes name × (t ≡ name ++ rest)
unfolding span_name
span_name_sound [] [] rest h = (tt, ground arith)
span_name_sound [] (x ∷ name) rest h = ground arith
span_name_sound (c ∷ t) [] rest h = (tt, ground arith)
span_name_sound (c ∷ t) (x ∷ name) rest h = ground (arith, span_name_sound t name rest)

quoted-plain :
    (from k t : Text) (c : ℕ)
    → is_escaped c ≡ false
    → quoted from k (c ∷ t) ≡ quoted from (k ++ c ∷ []) t
unfolding quoted
quoted-plain from k [] c h = ground arith
quoted-plain from k (d ∷ t) c h = ground arith

quoted-escaped :
    (from k t : Text) (c : ℕ)
    → is_escaped c ≡ true
    → quoted from k (b'\\' ∷ c ∷ t) ≡ quoted from (k ++ c ∷ []) t
unfolding quoted
quoted-escaped from k t c h = ground arith

empty-append-nil : {A : Type 0} (k : List A) → k ++ [] ≢ [] → k ≢ []
empty-append-nil k h = rw append-nil at h

close_filled : (from k rest : Text) → k ≢ [] → close_key from k b']' rest ≡ ok (k, rest)
unfolding close_key
close_filled from [] rest h = absurd (h refl)
close_filled from (c ∷ k) rest h = ground arith

-- The builder holds the key, whatever was in it, once the escaped key has been read.
pub quoted-escape :
    (from k e rest : Text)
    → k ++ e ≢ []
    → quoted from k (escape e ++ b'"' ∷ b']' ∷ rest) ≡ ok (k ++ e, rest)
unfolding quoted
quoted-escape from k [] rest h = rw append-nil (close_filled from k rest (empty-append-nil k h))
quoted-escape from k (c ∷ e) rest h =
    let filled : (k ++ c ∷ []) ++ e ≢ [] = λ p. h (sym (append_assoc k (c ∷ []) e) ∙ p) in
    let read =
      quoted-escape from (k ++ c ∷ []) e rest filled
      ∙ ap (λ t. ok (t, rest)) (append_assoc k (c ∷ []) e) in
    elim (Bool-cases (is_escaped c)) [
      | inl special ↦
          rw special (quoted-escaped from k (escape e ++ b'"' ∷ b']' ∷ rest) c special ∙ read)
      | inr plain ↦ rw plain (quoted-plain from k (escape e ++ b'"' ∷ b']' ∷ rest) c plain ∙ read)
    ]

-- What a successful read of a quoted key has read.
pub record ReadsKey (k t read rest : Text) : Type 0 where
  pub written : Text
  pub builds : read ≡ k ++ written
  pub filled : read ≢ []
  pub spells : t ≡ escape written ++ b'"' ∷ b']' ∷ rest

ReadsKey-cons :
    (k t read rest : Text) (c : ℕ)
    → ReadsKey (k ++ c ∷ []) t read rest
    → (u : Text) → u ≡ (if is_escaped c then b'\\' ∷ c ∷ t else c ∷ t)
    → ReadsKey k u read rest
ReadsKey-cons k t read rest c r u e = record {
  written = c ∷ r.written;
  builds = r.builds ∙ append_assoc k (c ∷ []) r.written;
  filled = r.filled;
  spells = e ∙ spelled (is_escaped c);
}
  where
    spelled :
        (b : Bool)
        → (if b then b'\\' ∷ c ∷ t else c ∷ t)
          ≡ (if b then b'\\' ∷ c ∷ escape r.written else c ∷ escape r.written) ++ b'"' ∷ b']' ∷ rest
    spelled true = ap (λ (w : Text). b'\\' ∷ c ∷ w) r.spells
    spelled false = ap (λ (w : Text). c ∷ w) r.spells

closing_facts :
    (from k read rest t : Text) (c d : ℕ)
    → close_key from (c ∷ k) d t ≡ ok (read, rest)
    → (d ≡ b']') × (read ≡ c ∷ k) × (t ≡ rest)
unfolding close_key
closing_facts from k read rest t c d h = ground arith

close_key_sound :
    (from k read rest t : Text) (d : ℕ)
    → close_key from k d t ≡ ok (read, rest)
    → ReadsKey k (b'"' ∷ d ∷ t) read rest
close_key_sound from [] read rest t d h = absurd (unfold close_key in ground arith)
close_key_sound from (c ∷ k) read rest t d h =
    let (bracket, builder, behind) = closing_facts from k read rest t c d h in
    record {
      written = [];
      builds = builder ∙ sym (append-nil (c ∷ k));
      filled = λ p. cc (builder, p);
      spells = cc (bracket, behind);
    }

pub quoted_sound :
    (from k t read rest : Text) → quoted from k t ≡ ok (read, rest) → ReadsKey k t read rest
unfolding quoted
quoted_sound from k [] read rest h = absurd (ground arith)
quoted_sound from k (c ∷ []) read rest h = absurd (ground arith)
quoted_sound from k (c ∷ d ∷ t) read rest h = elim (Bool-cases (is_escaped c)) [
  | inr plain ↦
      ReadsKey-cons k (d ∷ t) read rest c
        (quoted_sound from (k ++ c ∷ []) (d ∷ t) read rest (ground arith)) (c ∷ d ∷ t) (rw plain)
  | inl special ↦ elim (Bool-cases (c =? b'\\')) [
    | inr other ↦
        let quote : c ≡ b'"' = ground arith in
        rw quote (close_key_sound from k read rest t d (ground arith))
    | inl slash ↦
        let escapes : is_escaped d ≡ true = ground arith in
        let backslash : c ≡ b'\\' = ground arith in
        ReadsKey-cons k t read rest d (quoted_sound from (k ++ d ∷ []) t read rest (ground arith))
          (c ∷ d ∷ t) (rw (escapes, backslash))
  ]
]
