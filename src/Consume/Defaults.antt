-- ===== src/Consume/Defaults.antt =====
-- The default exporters, which are asked for what the router names no exporter for.
use exportercreator.Prelude.{
  ℕ, ◌+◌, ◌%◌, ◌≡◌, refl, ap, ◌∙◌, arith, Bool, true, false, not, ◌||◌, Bool-cases, inl, inr, List,
  [], ◌∷◌, Option, none, some, if◌then◌else◌, Text, word, int_add, sum_by,
}
use exportercreator.Component.{Signal}
use exportercreator.Wrapped.{Exporter, handles_itself}
use exportercreator.Pdata.{count_each}
use exportercreator.Consume.{Delivery, Sending, send, send_defaults, route_unmatched}
use exportercreator.Consume.Sent.{
  some_accepted, is_fine, SentMore, SentMore-none, SentMore-then, send-SentMore,
}

pub count_each-sum :
    {R : Type 0} (count : R → ℕ) (n : ℕ) (rs : List R)
    → count_each count (n % word) rs ≡ (n + sum_by count rs) % word
unfolding count_each int_add
count_each-sum count n [] = ap (λ k. k % word) (omega arith)
count_each-sum count n (r ∷ rs) =
    ap (λ k. count_each count k rs) (omega arith)
    ∙ count_each-sum count (n + count r) rs
    ∙ ap (λ k. k % word) (omega arith)

module _ {R : Type 0} (signal : Signal) (exporter_at : ℕ → Exporter) where
  -- A batch for each default exporter that implements the signal.
  abbrev pub to_defaults : List R → List ℕ → List (ℕ × List R)
  to_defaults batch [] = []
  to_defaults batch (exp ∷ exps) =
      if handles_itself signal (exporter_at exp)
      then (exp, batch) ∷ to_defaults batch exps
      else to_defaults batch exps

  abbrev pub for_defaults : List ℕ → List R → List (ℕ × List R)
  for_defaults defaults [] = []
  for_defaults defaults (r ∷ rs) = to_defaults (r ∷ rs) defaults

module _ {R : Type 0} (signal : Signal) (exporter_at : ℕ → Exporter)
    (consume : List (Delivery R) → ℕ → List R → Option Text) where
  -- The loop over the default exporters asks each, and finds out whether one accepts the batch.
  record Asked (batch : List R) (exps : List ℕ) (flags : Bool × Bool) (s : Sending R)
      (fresh : List (Delivery R)) (result : (Bool × Bool) × Sending R) : Type 0 where
    sent : SentMore s result.1 fresh (to_defaults signal exporter_at batch exps)
    accepted : result.0.1 ≡ (flags.1 || some_accepted fresh)
    implied : (flags.1 ≡ true → flags.0 ≡ true) → result.0.1 ≡ true → result.0.0 ≡ true

  after_answer :
      (o : Option Text) (succeeded : Bool)
      → (elim o as (λ a. Bool) [ none ↦ true | some message ↦ succeeded ])
        ≡ (succeeded || is_fine o)
  after_answer none succeeded = ground arith
  after_answer (some message) succeeded = ground arith

  send_defaults-Asked :
      (exps : List ℕ) (batch : List R) (has succeeded : Bool) (s : Sending R)
      → (fresh : List (Delivery R)) × Asked batch exps
          (has, succeeded)
          s
          fresh
          (send_defaults signal exporter_at consume exps batch (has, succeeded) s)
  unfolding send_defaults
  send_defaults-Asked [] batch has succeeded s =
      ([], record { sent = SentMore-none s; accepted = ground arith; implied = λ h. h })
  send_defaults-Asked (exp ∷ exps) batch has succeeded s =
      elim (Bool-cases (handles_itself signal (exporter_at exp))) [
        | inl itself ↦
            let answer = consume s.deliveries exp batch in
            let one = send-SentMore signal exporter_at consume exp batch s in
            let (fresh, p) =
              send_defaults-Asked exps batch true
                (elim answer as (λ a. Bool) [ none ↦ true | some message ↦ succeeded ])
                (send signal exporter_at consume exp batch s) in
            rw itself (
              (record { consumer = exp; batch = batch; answer = answer }) ∷ fresh,
              record {
                sent = rw itself (SentMore-then one p.sent);
                accepted =
                    p.accepted
                    ∙ ap (λ b. b || some_accepted fresh) (after_answer answer succeeded)
                    ∙ ground arith;
                implied = λ h. p.implied (λ t. refl);
              },
            )
        | inr other ↦
            let (fresh, p) = send_defaults-Asked exps batch has succeeded s in
            rw other
              (fresh, record { sent = rw other p.sent; accepted = p.accepted; implied = p.implied })
      ]

counted_unless :
    (has taken : Bool) (k m n : ℕ)
    → (taken ≡ true → has ≡ true)
    → k ≡ n % word
    → (if not has || not taken then int_add k (m % word) else k)
      ≡ (n + (if taken then 0 else m)) % word
unfolding int_add
counted_unless true true k m n h e = e ∙ ap (λ i. i % word) (omega arith)
counted_unless true false k m n h e = omega (arith, e)
counted_unless false false k m n h e = omega (arith, e)
counted_unless false true k m n h e = absurd (cc (h refl))

module _ {R : Type 0} (signal : Signal) (exporter_at : ℕ → Exporter) (count : R → ℕ)
    (consume : List (Delivery R) → ℕ → List R → Option Text) where
  -- What the unmatched part of a batch comes to: it is sent to each default exporter that implements
  -- the signal, and unless one accepts it its records are counted.
  pub record Routed (defaults : List ℕ) (unmatched : List R) (n : ℕ) (s : Sending R)
      (fresh : List (Delivery R)) (result : ℕ × Sending R) : Type 0 where
    pub sent : SentMore s result.1 fresh (for_defaults signal exporter_at defaults unmatched)
    pub counted :
        result.0 ≡ (n + (if some_accepted fresh then 0 else sum_by count unmatched)) % word

  pub route_unmatched-Routed :
      (defaults : List ℕ) (unmatched : List R) (k n : ℕ) (s : Sending R)
      → k ≡ n % word
      → (fresh : List (Delivery R)) × Routed defaults unmatched n s fresh
          (route_unmatched signal exporter_at count consume defaults unmatched k s)
  unfolding route_unmatched
  route_unmatched-Routed defaults [] k n s h =
      ([], record { sent = SentMore-none s; counted = h ∙ ap (λ i. i % word) (omega arith) })
  route_unmatched-Routed defaults (r ∷ rs) k n s h =
      let (fresh, p) =
        send_defaults-Asked signal exporter_at consume defaults (r ∷ rs) false false s in
      let flags = (send_defaults signal exporter_at consume defaults (r ∷ rs) (false, false) s).0 in
      let total = sum_by count (r ∷ rs) in
      (
        fresh,
        record {
          sent = p.sent;
          counted =
              ap (λ c. if not flags.0 || not flags.1 then int_add k c else k)
                (count_each-sum count 0 (r ∷ rs) ∙ ap (λ i. i % word) (omega arith))
              ∙ counted_unless flags.0 flags.1 k total n (p.implied (λ e. e)) h
              ∙ ap (λ b. (n + (if b then 0 else total)) % word) p.accepted;
        },
      )
