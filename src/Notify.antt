-- ===== src/Notify.antt =====
-- The subscription of one observer (observernotify.go): it hands each notification to the handler
-- that all observers share, and then to the tracker, under the observer's own id.
pub mod Tests
pub mod Tracked
use exportercreator.Prelude.{Bool, List, [], ◌∷◌, ◌++◌, ℕ, if◌then◌else◌, length, ◌=?◌, Text}
use exportercreator.Value.{Value, Fields}
use exportercreator.Component.{ComponentId, Endpoint}
use exportercreator.Expansion.{Evaluated}
use exportercreator.Config.{ExporterTemplate}
use exportercreator.Handler.{ObserverHandler, Runner, on_add_locked, on_remove_locked, on_change}
use exportercreator.Handler.History.{Notification, added, removed, changed}
use exportercreator.Tracker.{EndpointTracker, track, untrack}

pub record ObserverNotify : Type 0 where
  pub id : Text
  pub observer_id : ComponentId

-- What all the subscriptions of a creator share.
pub record Shared : Type 0 where
  pub handler : ObserverHandler
  pub tracker : EndpointTracker

-- `newObserverNotify`; `id_text` stands for String of a component id
unfoldable pub new_observer_notify :
    (ComponentId → Text) → ComponentId → ComponentId → ObserverNotify
new_observer_notify id_text creator_id observer_id = record {
  id = id_text creator_id ++ b'/' ∷ id_text observer_id;
  observer_id = observer_id;
}

-- The two halves of a callback. Each holds a lock of its own, so the halves of the callbacks of
-- different observers may come in any order in between.
pub data Half : Type 0 where
  asks : Notification → Half
  tells : ObserverNotify → Notification → Half

-- the tracker's part of `OnAdd`, `OnRemove` and `OnChange`
unfoldable pub tell_tracker : ObserverNotify → Notification → Shared → Shared
tell_tracker n (added endpoints) s = record s {
  tracker = (track n.observer_id endpoints s.tracker).0;
}
tell_tracker n (removed endpoints) s = record s {
  tracker = (untrack n.observer_id endpoints s.tracker).0;
}
tell_tracker n (changed endpoints) s = record s {
  tracker = (track n.observer_id endpoints s.tracker).0;
}

module _ (composite : Value → Text) (eval : Text → Fields → Evaluated) (runner : Runner)
    (templates : List ExporterTemplate) where
  -- the handler's part
  unfoldable pub ask_handler : Notification → Shared → Shared
  ask_handler (added endpoints) s = record s {
    handler = on_add_locked composite eval runner templates endpoints s.handler;
  }
  ask_handler (removed endpoints) s = record s {
    handler = on_remove_locked runner endpoints s.handler;
  }
  ask_handler (changed endpoints) s = record s {
    handler = on_change composite eval runner templates endpoints s.handler;
  }

  unfoldable pub deliver_half : Half → Shared → Shared
  unfolding ask_handler tell_tracker
  deliver_half (asks x) s = ask_handler x s
  deliver_half (tells n x) s = tell_tracker n x s

  -- A whole callback: `OnAdd`, `OnRemove` and `OnChange`.
  unfoldable pub deliver : ObserverNotify → Notification → Shared → Shared
  unfolding ask_handler tell_tracker
  deliver n x s = tell_tracker n x (ask_handler x s)
