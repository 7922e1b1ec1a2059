-- ===== src/Consume/Groups.antt =====
-- What the grouping loop does with a batch, resource by resource.
use exportercreator.Prelude.{
  ℕ, ◌+◌, ◌%◌, ◌≡◌, refl, ap, sym, ◌∙◌, arith, Bool, true, false, ◌||◌, List, [], ◌∷◌, ◌++◌, Option,
  none, some, if◌then◌else◌, nat_Eq, ◌==◌, word, int_add, sum_by, ◌≤◌, All, length, length-append,
}
use mathlib.Core.List.{append-nil, append_assoc}
use exportercreator.Prelude.GoMap.{GoMap, Distinct, lookup, insert-Distinct, insert-All}
use exportercreator.Prelude.MultiMap.{slice_at, push, lookup-push}
use exportercreator.Component.{Signal}
use exportercreator.Wrapped.{Exporter, consumer_of, warn_unsupported_signal}
use exportercreator.Consume.{Grouping, offer, count_unaccepted, group_resource, group}

module _ {R : Type 0} (signal : Signal) (count : R → ℕ) (exporter_at : ℕ → Exporter)
    (matched : R → List ℕ) where
  abbrev is_capable_of : Option ℕ → Bool
  is_capable_of none = false
  is_capable_of (some consumer) = true

  -- whether an exporter handles the signal, and whether one of several does
  abbrev pub is_capable : ℕ → Bool
  is_capable exp = is_capable_of (consumer_of signal exp (exporter_at exp))

  abbrev pub some_capable : List ℕ → Bool
  some_capable [] = false
  some_capable (exp ∷ exps) = is_capable exp || some_capable exps

  -- A resource, once for each time that the router names an exporter that handles the signal.
  abbrev pub offered : ℕ → R → List ℕ → List R
  offered exp r [] = []
  offered exp r (e ∷ es) =
      (if is_capable e then (if e == exp then r ∷ [] else []) else []) ++ offered exp r es

  -- what an exporter gets of a batch
  abbrev pub selected : ℕ → List R → List R
  selected exp [] = []
  selected exp (r ∷ rs) = offered exp r (matched r) ++ selected exp rs

  abbrev if_unmatched : R → List ℕ → List R
  if_unmatched r [] = r ∷ []
  if_unmatched r (exp ∷ exps) = []

  -- the resources for which the router names no exporter
  abbrev pub unmatched_of : List R → List R
  unmatched_of [] = []
  unmatched_of (r ∷ rs) = if_unmatched r (matched r) ++ unmatched_of rs

  abbrev lost_by : R → List ℕ → ℕ
  lost_by r [] = 0
  lost_by r (exp ∷ exps) = if some_capable (exp ∷ exps) then 0 else count r

  -- The records of a resource that is lost: the router names exporters for it, and none of them
  -- handles the signal.
  abbrev pub lost : R → ℕ
  lost r = lost_by r (matched r)

  -- what the map of the groups keeps: every exporter stands once, with a part that is not empty
  pub record IsSplit (groups : GoMap ℕ (List R)) : Type 0 where
    pub distinct : Distinct groups
    pub filled : All (λ (p : ℕ × List R). 1 ≤ length p.1) groups

  push-IsSplit :
      (exp : ℕ) (r : R) (groups : GoMap ℕ (List R)) → IsSplit groups → IsSplit (push exp r groups)
  push-IsSplit exp r groups p = record {
    distinct = insert-Distinct exp _ groups p.distinct;
    filled =
        insert-All (λ (q : ℕ × List R). 1 ≤ length q.1) exp _ groups
          (omega (arith, length-append (slice_at (lookup exp groups)) (r ∷ []))) p.filled;
  }

  record Offered (r : R) (exps : List ℕ) (accepted : Bool) (g : Grouping R)
      (result : Bool × Grouping R) : Type 0 where
    splits : IsSplit g.groups → IsSplit result.1.groups
    accepting : result.0 ≡ (accepted || some_capable exps)
    grouping :
        (exp : ℕ)
        → slice_at (lookup exp result.1.groups)
          ≡ slice_at (lookup exp g.groups) ++ offered exp r exps
    same_unmatched : result.1.unmatched ≡ g.unmatched
    same_count : result.1.nonroutable ≡ g.nonroutable

  offer-Offered :
      (r : R) (exps : List ℕ) (accepted : Bool) (g : Grouping R)
      → Offered r exps accepted g (offer signal exporter_at r exps accepted g)
  unfolding offer
  offer-Offered r [] accepted g = record {
    splits = λ d. d;
    accepting = ground arith;
    grouping = λ exp. sym (append-nil _);
    same_unmatched = refl;
    same_count = refl;
  }
  offer-Offered r (e ∷ es) accepted g =
      by (consumer_of signal e (exporter_at e)) refl (λ a h. offer-Offered r es a h)
    where
      by :
          (o : Option ℕ)
          → consumer_of signal e (exporter_at e) ≡ o
          → ((a : Bool) (h : Grouping R) → Offered r es a h (offer signal exporter_at r es a h))
          → Offered r (e ∷ es) accepted g (elim o as (λ x. Bool × Grouping R) [
            | none ↦ offer signal exporter_at r es accepted (record g {
              warnings = warn_unsupported_signal e (exporter_at e) signal g.warnings;
            })
            | some consumer ↦
                offer signal exporter_at r es true (record g { groups = push e r g.groups })
          ])
      by none q ih =
          let p =
            ih accepted (record g {
              warnings = warn_unsupported_signal e (exporter_at e) signal g.warnings;
            }) in
          let cap : is_capable e ≡ false = ap is_capable_of q in
          record {
            splits = p.splits;
            accepting = p.accepting ∙ rw cap;
            grouping = λ exp. p.grouping exp ∙ rw cap;
            same_unmatched = p.same_unmatched;
            same_count = p.same_count;
          }
      by (some c) q ih =
          let p = ih true (record g { groups = push e r g.groups }) in
          let cap : is_capable e ≡ true = ap is_capable_of q in
          record {
            splits = λ d. p.splits (push-IsSplit e r g.groups d);
            accepting = p.accepting ∙ rw cap (ground arith);
            grouping = λ exp.
                p.grouping exp
                ∙ ap (λ xs. xs ++ offered exp r es) (lookup-push e exp r g.groups)
                ∙ append_assoc (slice_at (lookup exp g.groups)) (if e == exp then r ∷ [] else [])
                    (offered exp r es)
                ∙ rw cap;
            same_unmatched = p.same_unmatched;
            same_count = p.same_count;
          }

  -- A batch has been grouped: from `g`, with a count of `n` so far.
  pub record Grouped (batch : List R) (n : ℕ) (g g' : Grouping R) : Type 0 where
    pub splits : IsSplit g.groups → IsSplit g'.groups
    pub grouping :
        (exp : ℕ)
        → slice_at (lookup exp g'.groups) ≡ slice_at (lookup exp g.groups) ++ selected exp batch
    pub left_over : g'.unmatched ≡ g.unmatched ++ unmatched_of batch
    pub counted : g'.nonroutable ≡ (n + sum_by lost batch) % word

  lost_if_taken :
      (r : R) (exp : ℕ) (exps : List ℕ) (taken : Bool)
      → matched r ≡ exp ∷ exps
      → taken ≡ some_capable (exp ∷ exps)
      → lost r ≡ (if taken then 0 else count r)
  lost_if_taken r exp exps taken m h = rw (m, h)

  count_unaccepted-Grouped :
      (r : R) (exp : ℕ) (exps : List ℕ) (n : ℕ) (g : Grouping R) (result : Bool × Grouping R)
      → matched r ≡ exp ∷ exps
      → g.nonroutable ≡ n % word
      → Offered r (exp ∷ exps) false g result
      → Grouped (r ∷ []) n g (count_unaccepted signal exporter_at count r result)
  unfolding count_unaccepted int_add
  count_unaccepted-Grouped r exp exps n g (true, g') m h p =
      let gone = lost_if_taken r exp exps true m p.accepting in
      record {
        splits = p.splits;
        grouping = λ j. p.grouping j ∙ rw (m, append-nil);
        left_over = p.same_unmatched ∙ rw (m, append-nil);
        counted = p.same_count ∙ h ∙ ap (λ k. k % word) (omega (arith, gone));
      }
  count_unaccepted-Grouped r exp exps n g (false, g') m h p =
      let gone = lost_if_taken r exp exps false m p.accepting in
      record {
        splits = p.splits;
        grouping = λ j. p.grouping j ∙ rw (m, append-nil);
        left_over = p.same_unmatched ∙ rw (m, append-nil);
        counted = omega (arith, p.same_count, h, gone);
      }

  group_resource-Grouped :
      (r : R) (exps : List ℕ) (n : ℕ) (g : Grouping R)
      → matched r ≡ exps
      → g.nonroutable ≡ n % word
      → Grouped (r ∷ []) n g (group_resource signal exporter_at count r exps g)
  unfolding group_resource
  group_resource-Grouped r [] n g m h =
      let none_lost : lost r ≡ 0 = rw m in
      record {
        splits = λ d. d;
        grouping = λ exp. sym (rw (m, append-nil));
        left_over = sym (rw m);
        counted = h ∙ ap (λ k. k % word) (omega (arith, none_lost));
      }
  group_resource-Grouped r (exp ∷ exps) n g m h =
      count_unaccepted-Grouped r exp exps n g _ m h (offer-Offered r (exp ∷ exps) false g)

  -- The grouping loop gives to each exporter the resources for which the router names it, if it
  -- handles the signal; leaves over those for which the router names none; and counts the records of
  -- those for which it names only exporters that do not handle the signal.
  pub group-Grouped :
      (batch : List R) (n : ℕ) (g : Grouping R)
      → g.nonroutable ≡ n % word
      → Grouped batch n g (group signal exporter_at count matched batch g)
  unfolding group
  group-Grouped [] n g h = record {
    splits = λ d. d;
    grouping = λ exp. sym (append-nil _);
    left_over = sym (append-nil _);
    counted = h ∙ ap (λ k. k % word) (omega arith);
  }
  group-Grouped (r ∷ rs) n g h =
      let p = group_resource-Grouped r (matched r) n g refl h in
      let g' = group_resource signal exporter_at count r (matched r) g in
      let q = group-Grouped rs (n + lost r) g' (p.counted ∙ ap (λ k. k % word) (omega arith)) in
      record {
        splits = λ d. q.splits (p.splits d);
        grouping = λ exp.
            q.grouping exp
            ∙ ap (λ xs. xs ++ selected exp rs) (p.grouping exp)
            ∙ append_assoc (slice_at (lookup exp g.groups)) (offered exp r (matched r) ++ [])
                (selected exp rs)
            ∙ rw append-nil;
        left_over =
            q.left_over
            ∙ ap (λ xs. xs ++ unmatched_of rs) p.left_over
            ∙ append_assoc g.unmatched (if_unmatched r (matched r) ++ []) (unmatched_of rs)
            ∙ rw append-nil;
        counted = q.counted ∙ ap (λ k. k % word) (omega arith);
      }
