-- ===== src/Factory/Tests.antt =====
-- A history of the factory's calls, over a store that is a map.
use exportercreator.Prelude.{ℕ, ◌≡◌, ◌⊎◌, ◌<◌, refl, arith, List, [], ◌∷◌, none, some}
use exportercreator.Prelude.Outcome.{ok}
use exportercreator.Prelude.GoMap.{lookup, insert, delete}
use exportercreator.Value.Tests.{bytes}
use exportercreator.Component.{logs, metrics, traces}
use exportercreator.Factory.{SharedExporter, new_process, create_exporter, shutdown_wrapper}
use exportercreator.Factory.MapStore.{map_store}
use exportercreator.Factory.Store.{Call, create, stop, after_all, times}
use exportercreator.Factory.Sharing.{create_exporter-shared}
use exportercreator.Factory.Released.{IsHeld, telemetry-released}

abbrev first_wrapper : SharedExporter map_store
first_wrapper = record { address = 0; handle = 0; creator = 0 }

-- A failing call, the pipelines of the logs and the metrics of configuration 5, and another one.
abbrev several : List (Call map_store)
several =
    create metrics (some (bytes "no meter")) 5 []
    ∷ create metrics none 5 []
    ∷ create logs none 6 []
    ∷ []

abbrev and_stopped : List (Call map_store)
and_stopped = create logs none 5 [] ∷ create metrics none 5 [] ∷ stop first_wrapper ∷ []

made_first : (create_exporter map_store logs none 5 [] (new_process map_store)).0 ≡ ok first_wrapper
unfolding create_exporter lookup insert
made_first = refl

-- The second creator was surplus, and the first has been shut down; a later pipeline gets a third.
after_stop :
    ((after_all map_store (new_process map_store) and_stopped).released ≡ 1 ∷ 0 ∷ [])
    × ((create_exporter map_store traces none 5 []
          (after_all map_store (new_process map_store) and_stopped)).0
        ≡ ok (record { address = 1; handle = 2; creator = 2 }))
unfolding create_exporter shutdown_wrapper lookup insert delete
after_stop = (refl, refl)

create_exporter-shared_example :
    ((create_exporter map_store traces none 5 [] (
        after_all map_store
          (create_exporter map_store logs none 5 [] (new_process map_store)).1
          several)).0
      ≡ ok first_wrapper)
    × (◌≡◌ {A = ℕ} 0 0)
create_exporter-shared_example =
    create_exporter-shared map_store [] several logs traces 5 [] [] first_wrapper made_first
      (tt, (tt, (tt, tt)))

two_made : 1 < (after_all map_store (new_process map_store) and_stopped).next
unfolding create_exporter shutdown_wrapper
two_made = omega arith

telemetry-released_example :
    let p = after_all map_store (new_process map_store) and_stopped in
    (IsHeld map_store 1 p.store × (times 1 p.released ≡ 0))
    ⊎ ((¬ IsHeld map_store 1 p.store) × (times 1 p.released ≡ 1))
telemetry-released_example = telemetry-released map_store and_stopped 1 two_made
