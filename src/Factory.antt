-- ===== src/Factory.antt =====
-- The exporter factory of factory.go: every pipeline of a configuration gets one creator, behind one
-- wrapper. The component store of internal/sharedcomponent is a parameter with its documented laws.
pub mod Store
pub mod Sound
pub mod Sharing
pub mod Released
pub mod MapStore
pub mod Tests
use exportercreator.Prelude.{
  ℕ, suc, ◌≡◌, ◌≢◌, Bool, true, false, List, [], ◌∷◌, ◌++◌, Option, none, some, if◌then◌else◌, ◌=?◌,
  Text, nat_Eq,
}
use exportercreator.Prelude.Outcome.{Outcome, ok, err}
use exportercreator.Prelude.GoMap.{GoMap, lookup, insert}
use exportercreator.Component.{Signal, logs, metrics, traces}
use exportercreator.Router.{RoutingRule}
use exportercreator.Creator.{ExporterCreator, new_exporter_creator}

-- The store: a configuration is its key, a component the number that `Unwrap` gives back. `holds`
-- reads what the store keeps, for the laws; `stop` is the end of `Shutdown`, with whether this was
-- the first time.
pub record SharedComponents : Type 1 where
  pub Store : Type 0
  pub Handle : Type 0
  pub empty : Store
  pub unwrap : Handle → ℕ
  pub holds : Store → ℕ → Option Handle
  pub get_or_add : ℕ → ℕ → Store → Handle × Store
  pub stop : Handle → Store → Bool × Store
  pub empty_holds : (k : ℕ) → holds empty k ≡ none
  pub kept : (k c : ℕ) (s : Store) (h : Handle) → holds s k ≡ some h → get_or_add k c s ≡ (h, s)
  pub added :
      (k c : ℕ) (s : Store)
      → holds s k ≡ none
      → (unwrap (get_or_add k c s).0 ≡ c)
        × ((j : ℕ)
            → holds (get_or_add k c s).1 j
              ≡ (if k =? j then some (get_or_add k c s).0 else holds s j))
  pub stopped_first :
      (h : Handle) (s : Store)
      → (stop h s).0 ≡ true
      → (k : ℕ) × (holds s k ≡ some h)
        × ((j : ℕ) → holds (stop h s).1 j ≡ (if k =? j then none else holds s j))
  pub stopped_again :
      (h : Handle) (s : Store)
      → (stop h s).0 ≡ false
      → ((k : ℕ) → holds s k ≢ some h) × ((stop h s).1 ≡ s)

-- `sharedExporter`, which is handed out by its address: two that are made one after the other differ.
-- With the shared component that it embeds, and its creator.
pub record SharedExporter (c : SharedComponents) : Type 0 where
  pub address : ℕ
  pub handle : c.Handle
  pub creator : ℕ

-- What the calls of the factory share. `shared` has the field of that name of each creator that has
-- set it, and `released` the creators whose telemetry has been shut down, in order. `next` and
-- `next_address` are the numbers of the next creator and the next wrapper.
pub record Process (c : SharedComponents) : Type 0 where
  pub store : c.Store
  pub next : ℕ
  pub next_address : ℕ
  pub creators : GoMap ℕ ExporterCreator
  pub shared : GoMap ℕ (SharedExporter c)
  pub released : List ℕ

module _ (c : SharedComponents) where
  abbrev pub new_process : Process c
  new_process = record {
    store = c.empty;
    next = 0;
    next_address = 0;
    creators = [];
    shared = [];
    released = [];
  }

  -- the first part of `getOrAddExporterCreator`: the shared component, with what was made for it
  unfoldable pub get_or_add_creator : ℕ → List RoutingRule → Process c → c.Handle × Process c
  unfolding insert
  get_or_add_creator cfg rules p =
      let created = p.next in
      let (sc, store') = c.get_or_add cfg created p.store in
      (
        sc,
        record p {
          store = store';
          next = suc created;
          creators = insert created (new_exporter_creator rules) p.creators;
          released = if c.unwrap sc =? created then p.released else p.released ++ created ∷ [];
        },
      )

  -- the end of `getOrAddExporterCreator`: the wrapper, which the first call makes
  unfoldable pub shared_wrapper :
      c.Handle → Option (SharedExporter c) → Process c → SharedExporter c × Process c
  unfolding insert
  shared_wrapper sc (some w) p = (w, p)
  shared_wrapper sc none p =
      let w : SharedExporter c = record {
        address = p.next_address;
        handle = sc;
        creator = c.unwrap sc;
      } in
      (w, record p { next_address = suc p.next_address; shared = insert (c.unwrap sc) w p.shared })

  unfoldable pub share : c.Handle × Process c → SharedExporter c × Process c
  unfolding shared_wrapper lookup
  share (sc, p) = shared_wrapper sc (lookup (c.unwrap sc) p.shared) p

  -- `getOrAddExporterCreator`; the first argument is the error of `newExporterCreator`, if it fails
  unfoldable pub get_or_add_exporter_creator :
      Option Text → ℕ → List RoutingRule → Process c → Outcome Text (SharedExporter c) × Process c
  unfolding get_or_add_creator share
  get_or_add_exporter_creator (some failure) cfg rules p = (err failure, p)
  get_or_add_exporter_creator none cfg rules p =
      let (w, p') = share (get_or_add_creator cfg rules p) in (ok w, p')

  -- `createLogsExporter`, `createMetricsExporter`, `createTracesExporter`
  unfoldable pub create_exporter :
      Signal
      → Option Text
      → ℕ
      → List RoutingRule
      → Process c
      → Outcome Text (SharedExporter c) × Process c
  unfolding get_or_add_exporter_creator
  create_exporter logs failure cfg rules p = get_or_add_exporter_creator failure cfg rules p
  create_exporter metrics failure cfg rules p = get_or_add_exporter_creator failure cfg rules p
  create_exporter traces failure cfg rules p = get_or_add_exporter_creator failure cfg rules p

  -- The end of a pipeline that has a wrapper: the first shutdown of the shared component is the
  -- creator's own, which releases its telemetry.
  unfoldable pub shutdown_wrapper : SharedExporter c → Process c → Process c
  shutdown_wrapper w p =
      let (first, store') = c.stop w.handle p.store in
      record p {
        store = store';
        released = if first then p.released ++ c.unwrap w.handle ∷ [] else p.released;
      }
