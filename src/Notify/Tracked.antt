-- ===== src/Notify/Tracked.antt =====
-- The handler and the tracker under the notifications of all observers, in the order in which they
-- come.
use mathlib.Core.Path.{subst}
use exportercreator.Prelude.{
  ◌%◌, ◌≡◌, refl, ap, sym, ◌∙◌, List, [], ◌∷◌, ◌++◌, Bool, Bool-cases, inl, inr, Option, none,
  if◌then◌else◌, ◌==◌, Text, length, word, text_Eq,
}
use exportercreator.Component.{ComponentId, id_Eq}
use exportercreator.Prelude.GoMap.{lookup}
use exportercreator.Prelude.MultiMap.{slice_at}
use exportercreator.Value.{Value, Fields}
use exportercreator.ExporterMap.{get, values}
use exportercreator.Router.{RoutingRule, new_telemetry_router, count_of}
use exportercreator.Expansion.{Evaluated}
use exportercreator.Config.{ExporterTemplate}
use exportercreator.Handler.{Runner, new_observer_handler}
use exportercreator.Handler.History.{Notification, added, removed, changed, notify, notify_all}
use exportercreator.Handler.InStep.{exporters_of, notify_all-in_step}
use exportercreator.Tracker.{EndpointTracker, map_at, new_endpoint_tracker}
use exportercreator.Tracker.Live.{last_reported, retracted, live_lem}
use exportercreator.Tracker.Invariant as Calls
use exportercreator.Tracker.Invariant.{TrackerCall, add, drop, IsCounted, endpoint_tracker_counts}
use exportercreator.Notify.{
  ObserverNotify, Shared, Half, asks, tells, tell_tracker, ask_handler, deliver_half, deliver,
}

-- what a notification asks of the tracker
abbrev pub tracker_call : ObserverNotify → Notification → TrackerCall
tracker_call n (added endpoints) = add n.observer_id endpoints
tracker_call n (removed endpoints) = drop n.observer_id endpoints
tracker_call n (changed endpoints) = add n.observer_id endpoints

abbrev pub told : List Half → List TrackerCall
told [] = []
told (asks x ∷ hs) = told hs
told (tells n x ∷ hs) = tracker_call n x ∷ told hs

abbrev pub asked : List Half → List Notification
asked [] = []
asked (asks x ∷ hs) = x ∷ asked hs
asked (tells n x ∷ hs) = asked hs

-- The type under which an observer last reported an endpoint that it has not retracted since, by
-- what has got to the tracker.
abbrev pub reported : ComponentId → Text → List Half → Option Text → Option Text
reported o id [] known = known
reported o id (asks x ∷ hs) known = reported o id hs known
reported o id (tells n (added es) ∷ hs) known =
    reported o id hs (if n.observer_id == o then last_reported id es known else known)
reported o id (tells n (removed es) ∷ hs) known =
    reported o id hs (if n.observer_id == o then retracted id es known else known)
reported o id (tells n (changed es) ∷ hs) known =
    reported o id hs (if n.observer_id == o then last_reported id es known else known)

abbrev live_at : ComponentId → Text → EndpointTracker → Option Text
live_at o id t = lookup id (map_at (lookup o t.live))

own :
    (observer o : ComponentId) (f : Option Text → Option Text) (id : Text) (s : Shared)
    → (if observer == o then f (live_at observer id s.tracker) else live_at o id s.tracker)
      ≡ (if observer == o then f (live_at o id s.tracker) else live_at o id s.tracker)
own observer o f id s = elim (Bool-cases (observer == o)) [
  | inl same ↦ let q : observer ≡ o = (id_Eq.beq_iff observer o).0 same in rw (same, q) refl
  | inr other ↦ rw other refl
]

tell_tracker-live :
    (n : ObserverNotify) (x : Notification) (s : Shared) (o : ComponentId) (id : Text)
    → live_at o id (tell_tracker n x s).tracker
      ≡ reported o id (tells n x ∷ []) (live_at o id s.tracker)
unfolding tell_tracker
tell_tracker-live n (added es) s o id =
    (live_lem n.observer_id o id es s.tracker).0 ∙ own n.observer_id o (last_reported id es) id s
tell_tracker-live n (removed es) s o id =
    (live_lem n.observer_id o id es s.tracker).1 ∙ own n.observer_id o (retracted id es) id s
tell_tracker-live n (changed es) s o id =
    (live_lem n.observer_id o id es s.tracker).0 ∙ own n.observer_id o (last_reported id es) id s

tell_tracker-eq :
    (n : ObserverNotify) (x : Notification) (s : Shared)
    → tell_tracker n x s
      ≡ (record { handler = s.handler; tracker = Calls.call s.tracker (tracker_call n x) })
unfolding tell_tracker
tell_tracker-eq n (added es) s = refl
tell_tracker-eq n (removed es) s = refl
tell_tracker-eq n (changed es) s = refl

module _ (composite : Value → Text) (eval : Text → Fields → Evaluated) (runner : Runner)
    (templates : List ExporterTemplate) where
  abbrev pub deliver_all : Shared → List Half → Shared
  deliver_all s [] = s
  deliver_all s (h ∷ hs) = deliver_all (deliver_half composite eval runner templates h s) hs

  -- a callback that no other one comes in between of
  deliver_halves :
      (n : ObserverNotify) (x : Notification) (s : Shared)
      → deliver_all s (asks x ∷ tells n x ∷ []) ≡ deliver composite eval runner templates n x s
  unfolding deliver_half deliver
  deliver_halves n x s = refl

  ask_handler-eq :
      (x : Notification) (s : Shared)
      → ask_handler composite eval runner templates x s ≡ (record {
        handler = notify composite eval runner templates s.handler x;
        tracker = s.tracker;
      })
  unfolding ask_handler
  ask_handler-eq (added es) s = refl
  ask_handler-eq (removed es) s = refl
  ask_handler-eq (changed es) s = refl

  deliver_all-eq :
      (s : Shared) (hs : List Half)
      → deliver_all s hs ≡ (record {
        handler = notify_all composite eval runner templates s.handler (asked hs);
        tracker = Calls.call_all s.tracker (told hs);
      })
  unfolding deliver_half
  deliver_all-eq s [] = refl
  deliver_all-eq s (asks x ∷ hs) =
      deliver_all-eq (ask_handler composite eval runner templates x s) hs
      ∙ rw (ask_handler-eq x s) refl
  deliver_all-eq s (tells n x ∷ hs) =
      deliver_all-eq (tell_tracker n x s) hs ∙ rw (tell_tracker-eq n x s) refl

  ask_handler-tracker :
      (x : Notification) (s : Shared)
      → (ask_handler composite eval runner templates x s).tracker ≡ s.tracker
  ask_handler-tracker x s = ap (λ (r : Shared). r.tracker) (ask_handler-eq x s)

  deliver_all-live :
      (s : Shared) (hs : List Half) (o : ComponentId) (id : Text)
      → live_at o id (deliver_all s hs).tracker ≡ reported o id hs (live_at o id s.tracker)
  unfolding deliver_half
  deliver_all-live s [] o id = refl
  deliver_all-live s (asks x ∷ hs) o id =
      deliver_all-live (ask_handler composite eval runner templates x s) hs o id
      ∙ ap (λ t. reported o id hs (live_at o id t)) (ask_handler-tracker x s)
  deliver_all-live s (tells n x ∷ hs) o id =
      deliver_all-live (tell_tracker n x s) hs o id
      ∙ ap (reported o id hs) (tell_tracker-live n x s o id)
      ∙ in_turn n x hs o id (live_at o id s.tracker)
    where
      in_turn :
          (m : ObserverNotify) (y : Notification) (rest : List Half) (p : ComponentId) (j : Text)
          (known : Option Text)
          → reported p j rest (reported p j (tells m y ∷ []) known)
            ≡ reported p j (tells m y ∷ rest) known
      in_turn m (added es) rest p j known = refl
      in_turn m (removed es) rest p j known = refl
      in_turn m (changed es) rest p j known = refl

  deliver_all-append :
      (s : Shared) (hs more : List Half)
      → deliver_all s (hs ++ more) ≡ deliver_all (deliver_all s hs) more
  deliver_all-append s [] more = refl
  deliver_all-append s (h ∷ hs) more =
      deliver_all-append (deliver_half composite eval runner templates h s) hs more

  -- the state that halves leave, of a new handler and a new tracker
  abbrev pub delivered : List RoutingRule → Bool → List Half → Shared
  delivered rules telemetry hs =
      deliver_all
        (record {
          handler = new_observer_handler (new_telemetry_router rules telemetry);
          tracker = new_endpoint_tracker telemetry;
        })
        hs

  -- What the halves of callbacks have come to.
  pub record IsDelivered (rules : List RoutingRule) (telemetry : Bool) (hs : List Half)
      : Type 0 where
    -- every notification got to the handler, in order
    pub handled :
        (delivered rules telemetry hs).handler
        ≡ notify_all composite eval runner templates
            (new_observer_handler (new_telemetry_router rules telemetry))
            (asked hs)
    -- and to the tracker, under the observer's own id
    pub tracked :
        (o : ComponentId) (id : Text)
        → live_at o id (delivered rules telemetry hs).tracker ≡ reported o id hs none
    pub counted : IsCounted (delivered rules telemetry hs).tracker
    pub in_step :
        let oh = (delivered rules telemetry hs).handler in
        ((id : Text)
          → exporters_of (slice_at (lookup id oh.router.exporters))
            ≡ get id oh.exporters_by_endpoint)
        × (count_of oh.router ≡ length (values oh.exporters_by_endpoint) % word)
    -- a callback that no other one comes in between of is its two halves
    pub whole :
        (n : ObserverNotify) (x : Notification)
        → deliver composite eval runner templates n x (delivered rules telemetry hs)
          ≡ delivered rules telemetry (hs ++ asks x ∷ tells n x ∷ [])

  -- Whatever callbacks the observers make to a new handler and tracker, and in whatever order the
  -- halves of them come, at every moment between two halves: the handler is the one that the
  -- notifications make, in the order in which they got to it; for every observer, the tracker's live
  -- endpoints are those that this observer has reported and not retracted since, each with its last
  -- type, and the totals are their numbers over all observers; the handler's map and the router agree
  -- on the exporters of every endpoint and on their number, as a 64-bit word; and a callback that no
  -- other one comes in between of does the handler's half and then the tracker's.
  pub deliver_all-consistent :
      (rules : List RoutingRule) (telemetry : Bool) (hs : List Half)
      → IsDelivered rules telemetry hs
  unfolding new_endpoint_tracker lookup
  deliver_all-consistent rules telemetry hs =
      let router = new_telemetry_router rules telemetry in
      let start : Shared = record {
        handler = new_observer_handler router;
        tracker = new_endpoint_tracker telemetry;
      } in
      let e = deliver_all-eq start hs in
      let handler = ap (λ (s : Shared). s.handler) e in
      let agree = notify_all-in_step composite eval runner templates rules telemetry (asked hs) in
      record {
        handled = handler;
        tracked = λ o id. deliver_all-live start hs o id;
        counted =
            subst IsCounted (sym (ap (λ (s : Shared). s.tracker) e))
              (endpoint_tracker_counts telemetry (told hs));
        in_step = rw handler agree;
        whole = λ n x.
            sym (deliver_all-append start hs (asks x ∷ tells n x ∷ []) ∙ deliver_halves n x _);
      }
