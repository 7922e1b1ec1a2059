-- ===== src/ExporterMap/Tests.antt =====
-- Runs of the multimap, its size among them.
use exportercreator.Prelude.{◌≡◌, refl, [], ◌∷◌, int_add, text_eq}
use exportercreator.Prelude.GoMap.{lookup, insert, delete}
use exportercreator.Value.Tests.{bytes}
use exportercreator.ExporterMap.{ExporterMap, put, get, remove_all, size}

abbrev pod_exporters : ExporterMap
pod_exporters = (bytes "pod-1", 1 ∷ 2 ∷ []) ∷ (bytes "pod-2", 3 ∷ []) ∷ []

-- A duplicate stays.
put_twice : get (bytes "pod-2") (put (bytes "pod-2") 3 pod_exporters) ≡ 3 ∷ 3 ∷ []
unfolding get put lookup insert text_eq
put_twice = refl

counts :
    (size pod_exporters ≡ 3)
    × (size (put (bytes "pod-3") 4 pod_exporters) ≡ 4)
    × (size (remove_all (bytes "pod-1") pod_exporters) ≡ 1)
unfolding size put remove_all lookup insert delete text_eq int_add
counts = (refl, refl, refl)
