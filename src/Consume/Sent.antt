-- ===== src/Consume/Sent.antt =====
-- What is sent, what is returned, and which default exporters are asked.
use exportercreator.Prelude.{
  ℕ, ◌≡◌, refl, ap, sym, ◌∙◌, Bool, true, false, ◌||◌, List, [], ◌∷◌, ◌++◌, Option, none, some,
  Text,
}
use mathlib.Core.List.{append-nil, append_assoc}
use exportercreator.Prelude.GoMap.{GoMap}
use exportercreator.Component.{Signal}
use exportercreator.Wrapped.{Exporter}
use exportercreator.Consume.{Delivery, Sending, handler_of, send, send_to, send_groups}

abbrev message_of : Option Text → List Text
message_of none = []
message_of (some message) = message ∷ []

abbrev pub is_fine : Option Text → Bool
is_fine none = true
is_fine (some message) = false

errs_after :
    (o : Option Text) (errs : List Text)
    → (elim o as (λ x. List Text) [ none ↦ errs | some message ↦ errs ++ message ∷ [] ])
      ≡ errs ++ (message_of o ++ [])
errs_after none errs = sym (append-nil _)
errs_after (some message) errs = refl

module _ {R : Type 0} where
  -- consumers and batches, without the answers
  abbrev pub addressed : List (Delivery R) → List (ℕ × List R)
  addressed [] = []
  addressed (d ∷ ds) = (d.consumer, d.batch) ∷ addressed ds

  -- the errors that the consumers returned, in order
  abbrev pub failures : List (Delivery R) → List Text
  failures [] = []
  failures (d ∷ ds) = message_of d.answer ++ failures ds

  -- whether one of the batches was accepted
  abbrev pub some_accepted : List (Delivery R) → Bool
  some_accepted [] = false
  some_accepted (d ∷ ds) = is_fine d.answer || some_accepted ds

  addressed-append :
      (ds es : List (Delivery R)) → addressed (ds ++ es) ≡ addressed ds ++ addressed es
  addressed-append [] es = refl
  addressed-append (d ∷ ds) es = ap (◌∷◌ (d.consumer, d.batch)) (addressed-append ds es)

  failures-append : (ds es : List (Delivery R)) → failures (ds ++ es) ≡ failures ds ++ failures es
  failures-append [] es = refl
  failures-append (d ∷ ds) es =
      ap (λ xs. message_of d.answer ++ xs) (failures-append ds es)
      ∙ sym (append_assoc (message_of d.answer) (failures ds) (failures es))

  -- From one state of the sending to a later one: `fresh` has been sent, to `addresses`, and its
  -- failures are the new errors.
  pub record SentMore (s s' : Sending R) (fresh : List (Delivery R)) (addresses : List (ℕ × List R))
      : Type 0 where
    pub behind : s'.deliveries ≡ s.deliveries ++ fresh
    pub to : addressed fresh ≡ addresses
    pub errors : s'.errs ≡ s.errs ++ failures fresh

  pub SentMore-none : (s : Sending R) → SentMore s s [] []
  SentMore-none s = record { behind = sym (append-nil _); to = refl; errors = sym (append-nil _) }

  pub SentMore-then :
      {s t u : Sending R} {ds es : List (Delivery R)} {xs ys : List (ℕ × List R)}
      → SentMore s t ds xs
      → SentMore t u es ys
      → SentMore s u (ds ++ es) (xs ++ ys)
  SentMore-then {s} {t} {u} {ds} {es} {xs} p q = record {
    behind = q.behind ∙ ap (λ zs. zs ++ es) p.behind ∙ append_assoc s.deliveries ds es;
    to = addressed-append ds es ∙ ap (λ zs. zs ++ addressed es) p.to ∙ ap (λ ys. xs ++ ys) q.to;
    errors =
        q.errors
        ∙ ap (λ xs. xs ++ failures es) p.errors
        ∙ append_assoc s.errs (failures ds) (failures es)
        ∙ ap (λ xs. s.errs ++ xs) (sym (failures-append ds es));
  }

module _ {R : Type 0} (signal : Signal) (exporter_at : ℕ → Exporter)
    (consume : List (Delivery R) → ℕ → List R → Option Text) where
  pub send-SentMore :
      (consumer : ℕ) (batch : List R) (s : Sending R)
      → SentMore s
          (send signal exporter_at consume consumer batch s)
          ((record {
            consumer = consumer;
            batch = batch;
            answer = consume s.deliveries consumer batch;
          })
            ∷ [])
          ((consumer, batch) ∷ [])
  unfolding send
  send-SentMore consumer batch s =
      let answer = consume s.deliveries consumer batch in
      record { behind = refl; to = refl; errors = errs_after answer s.errs }

  abbrev sends_to : Option ℕ → List R → List (ℕ × List R)
  sends_to none batch = []
  sends_to (some consumer) batch = (consumer, batch) ∷ []

  -- Every group goes to its consumer.
  abbrev pub sends : GoMap ℕ (List R) → List (ℕ × List R)
  sends [] = []
  sends ((exp, batch) ∷ groups) = sends_to (handler_of signal exporter_at exp) batch ++ sends groups

  send_to-SentMore :
      (o : Option ℕ) (batch : List R) (s : Sending R)
      → (fresh : List (Delivery R)) × SentMore s
          (send_to signal exporter_at consume o batch s)
          fresh
          (sends_to o batch)
  unfolding send_to
  send_to-SentMore none batch s = ([], SentMore-none s)
  send_to-SentMore (some consumer) batch s = (_, send-SentMore consumer batch s)

  pub send_groups-SentMore :
      (groups : GoMap ℕ (List R)) (s : Sending R)
      → (fresh : List (Delivery R)) × SentMore s
          (send_groups signal exporter_at consume groups s)
          fresh
          (sends groups)
  unfolding send_groups
  send_groups-SentMore [] s = ([], SentMore-none s)
  send_groups-SentMore ((exp, batch) ∷ groups) s =
      let (ds, p) = send_to-SentMore (handler_of signal exporter_at exp) batch s in
      let (es, q) = send_groups-SentMore groups _ in (ds ++ es, SentMore-then p q)
