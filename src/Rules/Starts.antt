-- ===== src/Rules/Starts.antt =====
-- What the text of an accepted rule starts with.
use exportercreator.Prelude.{
  ℕ, ◌≡◌, ◌↔◌, ◌⊎◌, refl, ap, sym, ◌∙◌, arith, Bool, true, false, ◌||◌, Bool-cases, inl, inr, List,
  [], ◌∷◌, ◌++◌, some, All, ◌=?◌, length, Text,
}
use exportercreator.Prelude.Outcome.{Outcome, ok, err}
use exportercreator.Prelude.Member.{In, first, later}
use exportercreator.Value.{Fields}
use exportercreator.Expansion.{Evaluated}
use exportercreator.Rules.{Rule}
use exportercreator.Rules.Pattern.{
  holds_for, literal, match_name, match_literals, is_space, skip_spaces, is_closed, match_names,
  type_word, equals_word, match_rule_re, type_names, compiled, new_rule,
}
use exportercreator.Rules.Takes.{
  Takes, holds_for_iff, literal-some, literal-cons, match_literals-some, match_literals-append,
  match_name-Takes, Takes-match_name, skip_spaces-split, skip_spaces-append,
}

-- What the pattern stands for: the word type, two equals signs, and a quoted name.
pub record StartsWithType (names : List Text) (s : Text) : Type 0 where
  pub before : Text
  pub behind : Text
  pub name : Text
  pub quoted : Text
  pub rest : Text
  pub is_name : In name names
  pub spaces_before : All (λ c. is_space c ≡ true) before
  pub spaces_behind : All (λ c. is_space c ≡ true) behind
  pub spells : s ≡ type_word ++ (before ++ (equals_word ++ (behind ++ b'"' ∷ quoted)))
  pub named : Takes name quoted (b'"' ∷ rest)

is_closed-eq : (s : Text) → is_closed s ≡ true → (rest : Text) × (s ≡ b'"' ∷ rest)
is_closed-eq [] h = absurd (cc h)
is_closed-eq (c ∷ s) h = let q : c ≡ b'"' = ground arith in (s, ap (λ (i : ℕ). i ∷ s) q)

or_true : (a b : Bool) → (a || b) ≡ true → (a ≡ true) ⊎ (b ≡ true)
or_true true b h = inl refl
or_true false b h = inr h

match_names-named :
    (names : List Text) (s : Text)
    → match_names names s ≡ true
    → (name : Text) × In name names × ((rest : Text) × Takes name s (b'"' ∷ rest))
unfolding match_names
match_names-named [] s h = absurd (cc h)
match_names-named (n ∷ names) s h = elim (or_true (holds_for (match_name n s) is_closed) _ h) [
  | inl this ↦
      let (r, e, closed) = (holds_for_iff (match_name n s) is_closed).0 this in
      let (rest, q) = is_closed-eq r closed in
      (n, first refl, (rest, match_name-Takes n s (b'"' ∷ rest) (e ∙ ap (λ x. some x) q)))
  | inr that ↦
      let (name, where_, more) = match_names-named names s that in (name, later where_, more)
]

named-match_names :
    {name : Text} {names : List Text} (s rest : Text)
    → In name names
    → Takes name s (b'"' ∷ rest)
    → match_names names s ≡ true
unfolding match_names
named-match_names {name} s rest (first {y = n} {ys = names} q) t =
    let e : match_name n s ≡ some (b'"' ∷ rest) = rw q at (Takes-match_name t) in rw e refl
named-match_names s rest (later {y = n} {ys = names} w) t =
    let more = named-match_names s rest w t in ground arith

-- A text that the pattern accepts starts with the word type, two equals signs with spaces or none
-- around them, and a quoted name that one of the names of the pattern takes.
match_rule_re-StartsWithType :
    (names : List Text) (s : Text) → match_rule_re names s ≡ true → StartsWithType names s
unfolding match_rule_re
match_rule_re-StartsWithType names s h =
    let (r, e1, h1) = (holds_for_iff (match_literals type_word s) _).0 h in
    let (r', e2, h2) = (holds_for_iff (match_literals equals_word (skip_spaces r)) _).0 h1 in
    let (quoted, e3, h3) = (holds_for_iff (literal b'"' (skip_spaces r')) _).0 h2 in
    let (before, all, q1) = skip_spaces-split r in
    let (behind, all', q2) = skip_spaces-split r' in
    let (name, is_name, (rest, taken)) = match_names-named names quoted h3 in
    let p1 = match_literals-some type_word s r e1 in
    let p2 = match_literals-some equals_word (skip_spaces r) r' e2 in
    let p3 = literal-some b'"' (skip_spaces r') quoted e3 in
    record {
      before = before;
      behind = behind;
      name = name;
      quoted = quoted;
      rest = rest;
      is_name = is_name;
      spaces_before = all;
      spaces_behind = all';
      spells =
          p1
          ∙ ap (λ t. type_word ++ t)
              (q1
                ∙ ap (λ t. before ++ t)
                    (p2 ∙ ap (λ t. equals_word ++ t) (q2 ∙ ap (λ t. behind ++ t) p3)));
      named = taken;
    }

StartsWithType-match_rule_re :
    (names : List Text) (s : Text) → StartsWithType names s → match_rule_re names s ≡ true
unfolding match_rule_re
StartsWithType-match_rule_re names s w =
    let inner = b'"' ∷ w.quoted in
    let r' = w.behind ++ inner in
    let r = w.before ++ (equals_word ++ r') in
    let m1 : match_literals type_word s ≡ some r =
      ap (match_literals type_word) w.spells ∙ match_literals-append type_word r in
    let m2 : match_literals equals_word (skip_spaces r) ≡ some r' =
      ap (match_literals equals_word)
        (skip_spaces-append w.before b'=' (b'=' ∷ r') w.spaces_before refl)
      ∙ match_literals-append equals_word r' in
    let m3 : literal b'"' (skip_spaces r') ≡ some w.quoted =
      ap (literal b'"') (skip_spaces-append w.behind b'"' w.quoted w.spaces_behind refl)
      ∙ literal-cons b'"' w.quoted in
    rw m1 (rw m2 (rw m3 (named-match_names w.quoted w.rest w.is_name w.named)))

compiled-ok :
    (o : Outcome Text (Fields → Evaluated)) (r : Rule) → (compiled o ≡ ok r) ↔ (o ≡ ok r.program)
unfolding compiled
compiled-ok (ok program) r = (
  λ h. let q : record { program = program } ≡ r = cc h in ap (λ (x : Rule). ok x.program) q,
  λ h. let q : program ≡ r.program = cc h in ap (λ x. ok (record { program = x })) q,
)
compiled-ok (err message) r = (λ h. absurd (cc h), λ h. absurd (cc h))

-- `newRule` makes a rule just when its text starts with a type that the pattern accepts and
-- compiles, and then the rule is the compiled program.
pub new_rule_iff :
    (observed : List Text) (compile : Text → Outcome Text (Fields → Evaluated)) (s : Text)
    (r : Rule)
    → (new_rule observed compile s ≡ ok r)
      ↔ StartsWithType (type_names observed) s × (compile s ≡ ok r.program)
unfolding new_rule
new_rule_iff observed compile [] r =
    (λ h. absurd (cc h), λ (w, e). let q = w.spells in absurd (cc q))
new_rule_iff observed compile (c ∷ s) r =
    let filled : (length (c ∷ s) =? 0) ≡ false = ground arith in
    elim (Bool-cases (match_rule_re (type_names observed) (c ∷ s))) [
      | inl starts ↦
          let w = match_rule_re-StartsWithType (type_names observed) (c ∷ s) starts in
          let done_ = compiled-ok (compile (c ∷ s)) r in
          rw (filled, starts) (λ h. (w, done_.0 h), λ (w', e). done_.1 e)
      | inr other ↦
          rw (filled, other)
            (
              λ h. absurd (cc h),
              λ (w, e).
                  let starts = StartsWithType-match_rule_re (type_names observed) (c ∷ s) w in
                  absurd (let q : true ≡ false = sym starts ∙ other in cc q),
            )
    ]
