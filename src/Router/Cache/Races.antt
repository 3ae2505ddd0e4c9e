-- ===== src/Router/Cache/Races.antt =====
-- A change between `compute` and the reading of the generation in `get_or_compute`,
-- nyne/src/router/cache/mod.rs.
use mathlib.Core.Logic.{if_pos}
use nyne.Prelude.{ℕ, ◌≡◌, refl, some, List, ==-of_eq}
use nyne.Prelude.Maps.{lookup-insert}
use nyne.Router.Cache.{generation, bump, CacheEntry, hit, store_computed, get_or_compute}
use nyne.Router.Cache.Coherence.{change, access, World, apply}

module _ {K File V : Type 0} (eq_key : Discrete K) (eq_path : Discrete File) where
  hit-store_computed :
      (generations : List (File × ℕ)) (store : List (K × CacheEntry File V)) (key : K)
      (computed : V × File)
      → hit eq_key eq_path generations
          (store_computed eq_key eq_path generations store key computed)
          key
        ≡ some computed.0
  unfolding hit store_computed
  hit-store_computed generations store key (value, source) =
      rw
        (
          lookup-insert eq_key key key _ store,
          if_pos (eq_key key key) refl _ _,
          ==-of_eq (generation eq_path generations source) (generation eq_path generations source)
              refl,
        )
        refl

module _ {K File C V : Type 0} (eq_key : Discrete K) (eq_path : Discrete File) where
  module _ (compute : K → (File → C) → V × File) where
    -- The world after an access of `k` that a change of its source overtakes.
    abbrev pub overtaken : K → C → World K File C V → World K File C V
    overtaken k c w =
        let computed = compute k w.content in
        let changed = (apply eq_key eq_path compute (change computed.1 c) w).0 in
        record changed {
          store = store_computed eq_key eq_path changed.generations changed.store k computed;
        }

    -- When the source of a key changes, and is bumped, after the value was computed and before the
    -- generation is read, the value of before the change is stored as current: each later access
    -- answers it, and leaves it.
    pub access-overtaken :
        (k : K) (c : C) (w : World K File C V)
        → let (later, answer) = apply eq_key eq_path compute (access k) (overtaken k c w) in
          (answer ≡ some (compute k w.content).0) × (later ≡ overtaken k c w)
    unfolding apply get_or_compute
    access-overtaken k c w =
        rw
          (
            apply,
            get_or_compute,
            hit-store_computed eq_key eq_path (bump eq_path w.generations (compute k w.content).1)
                w.store k (compute k w.content),
          )
          (refl, refl)
