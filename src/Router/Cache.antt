-- ===== src/Router/Cache.antt =====
-- The cache with generations, nyne/src/router/cache/mod.rs, and the generations themselves,
-- nyne/src/router/cache/generation/mod.rs. Keys, paths and values are parameters.
pub mod Coherence
pub mod Races
pub mod Tests
use mathlib.Core.Logic.{ite}
use nyne.Prelude.{
  ℕ, ◌+◌, ◌%◌, ◌^◌, ◌≡◌, Bool, true, false, Option, none, some, List, [], ◌∷◌, ◌==◌, if◌then◌else◌,
}
use nyne.Prelude.Maps.{lookup, insert, remove}

abbrev pub or_zero : Option ℕ → ℕ
or_zero none = 0
or_zero (some n) = n

-- `GenerationMap`.
module _ {File : Type 0} (eq : Discrete File) where
  unfoldable pub generation : List (File × ℕ) → File → ℕ
  generation inner path = or_zero (lookup eq path inner)

  -- A generation is a `u64`.
  unfoldable pub bump : List (File × ℕ) → File → List (File × ℕ)
  bump inner path = insert eq path ((generation inner path + 1) % 2 ^ 64) inner

pub record CacheEntry (File V : Type 0) : Type 0 where
  pub generation : ℕ
  pub source : File
  pub value : V

-- The value of an entry of the generation that its source now has.
abbrev pub fresh :
    {File V : Type 0} → Discrete File → List (File × ℕ) → Option (CacheEntry File V) → Option V
fresh eq_path generations none = none
fresh eq_path generations (some entry) =
    if entry.generation == generation eq_path generations entry.source
    then some entry.value
    else none

module _ {K File V : Type 0} (eq_key : Discrete K) (eq_path : Discrete File) where
  -- The fast path of `get_or_compute`.
  unfoldable pub hit : List (File × ℕ) → List (K × CacheEntry File V) → K → Option V
  hit generations store key = fresh eq_path generations (lookup eq_key key store)

  -- The slow path, once `compute` is done: the generation is read now, and the entry stored.
  unfoldable pub store_computed :
      List (File × ℕ) → List (K × CacheEntry File V) → K → V × File → List (K × CacheEntry File V)
  store_computed generations store key (value, source) =
      insert eq_key key
        (record {
          generation = generation eq_path generations source;
          source = source;
          value = value;
        })
        store

  -- `get_or_compute` with nothing between its steps; `computed` is what `compute` gives.
  unfoldable pub get_or_compute :
      List (File × ℕ)
      → List (K × CacheEntry File V)
      → K
      → V × File
      → List (K × CacheEntry File V) × V
  get_or_compute generations store key computed = elim (hit generations store key) [
    | some value ↦ (store, value)
    | none ↦ (store_computed generations store key computed, computed.0)
  ]

  unfoldable pub invalidate : List (K × CacheEntry File V) → K → List (K × CacheEntry File V)
  invalidate store key = remove eq_key key store
