-- ===== src/Expansion/Prune.antt =====
-- `removeNilValuesFromMap`: what is left, and what is left alone.
use exportercreator.Prelude.{◌≡◌, ◌≢◌, refl, ap, ◌∙◌, Text}
use exportercreator.Value.{Value, Fields, nil, text, object, end, field}
use exportercreator.Expansion.{put_cleaned, cleaned_entry, remove_nil_values_from_map}

-- No entry is nil, and no nested map is empty, at any depth of maps.
abbrev mutual
  pub IsClean : Value → Type 0
  IsClean nil = ⊥
  IsClean (object fs) = (fs ≢ end) × AreClean fs
  IsClean _ = Unit

  pub AreClean : Fields → Type 0
  AreClean end = Unit
  AreClean (field k v fs) = IsClean v × AreClean fs

put_cleaned-AreClean :
    (k : Text) (fs rest : Fields) → AreClean fs → AreClean rest → AreClean (put_cleaned k fs rest)
unfolding put_cleaned
put_cleaned-AreClean k end rest h r = r
put_cleaned-AreClean k (field j v fs) rest h r = ((cc, h), r)

mutual
  unfolding remove_nil_values_from_map

  cleaned_entry-AreClean :
      (v : Value) (k : Text) (rest : Fields) → AreClean rest → AreClean (cleaned_entry k v rest)
  cleaned_entry-AreClean nil k rest r = r
  cleaned_entry-AreClean (object fs) k rest r =
      put_cleaned-AreClean k (remove_nil_values_from_map fs) rest (removed-AreClean fs) r
  cleaned_entry-AreClean (text s) k rest r = (tt, r)
  cleaned_entry-AreClean v k rest r = (tt, r)

  removed-AreClean : (fs : Fields) → AreClean (remove_nil_values_from_map fs)
  removed-AreClean end = tt
  removed-AreClean (field k v fs) =
      cleaned_entry-AreClean v k (remove_nil_values_from_map fs) (removed-AreClean fs)

put_cleaned-filled :
    (k : Text) (fs rest : Fields) → fs ≢ end → put_cleaned k fs rest ≡ field k (object fs) rest
unfolding put_cleaned
put_cleaned-filled k end rest h = absurd (h refl)
put_cleaned-filled k (field j v fs) rest h = refl

mutual
  unfolding remove_nil_values_from_map

  cleaned_entry-clean :
      (v : Value) (k : Text) (rest : Fields) → IsClean v → cleaned_entry k v rest ≡ field k v rest
  cleaned_entry-clean nil k rest h = absurd h
  cleaned_entry-clean (object fs) k rest h =
      ap (λ gs. put_cleaned k gs rest) (removed-clean fs h.1) ∙ put_cleaned-filled k fs rest h.0
  cleaned_entry-clean (text s) k rest h = refl
  cleaned_entry-clean v k rest h = refl

  removed-clean : (fs : Fields) → AreClean fs → remove_nil_values_from_map fs ≡ fs
  removed-clean end h = refl
  removed-clean (field k v fs) h =
      cleaned_entry-clean v k (remove_nil_values_from_map fs) h.0
      ∙ ap (field k v) (removed-clean fs h.1)

-- What is left holds no nil and no empty nested map at any depth of maps, a map of which that is
-- true is left alone, and so a second pass changes nothing.
pub remove_nil_values_from_map_lem :
    (fs : Fields)
    → AreClean (remove_nil_values_from_map fs)
      × (AreClean fs → remove_nil_values_from_map fs ≡ fs)
      × (remove_nil_values_from_map (remove_nil_values_from_map fs) ≡ remove_nil_values_from_map fs)
remove_nil_values_from_map_lem fs = (
  removed-AreClean fs,
  removed-clean fs,
  removed-clean (remove_nil_values_from_map fs) (removed-AreClean fs),
)
