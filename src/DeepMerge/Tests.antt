-- ===== src/DeepMerge/Tests.antt =====
-- Runs of the theorems on two layers of configuration; keys and scalars are numbers.
use native.Mathlib.Decide.{ℕ_discrete}
use nyne.Prelude.{ℕ, ◌≡◌, refl, some, [], ◌∷◌}
use nyne.DeepMerge.{Value, scalar, table, no_entry, entry, get, deep_merge}
use nyne.DeepMerge.Lookup.{IsMap, get_path, get_path-overlay}

abbrev no_value : Value ℕ ℕ
no_value = table no_entry

abbrev base : Value ℕ ℕ
base = table (entry 1 (table (entry 2 (scalar 5) (entry 3 (scalar 6) no_entry))) no_entry)

abbrev overlay : Value ℕ ℕ
overlay = table (entry 4 (scalar 8) (entry 1 (table (entry 2 (scalar 7) no_entry)) no_entry))

overlay-IsMap : IsMap ℕ_discrete no_value overlay
unfolding IsMap
overlay-IsMap = (((λ h. cc), tt), tt, (tt, (tt, tt, tt), tt))

get_path-overlay_example :
    get_path ℕ_discrete no_value (1 ∷ 2 ∷ []) (deep_merge ℕ_discrete no_value base overlay)
    ≡ some (scalar 7)
unfolding get_path get ℕ_discrete
get_path-overlay_example =
    get_path-overlay ℕ_discrete no_value (1 ∷ 2 ∷ []) base overlay 7 overlay-IsMap refl
