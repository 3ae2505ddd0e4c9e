-- ===== src/DeepMerge.antt =====
-- The merge of layered configuration values, nyne/src/deep_merge/mod.rs, for the values of serde_json and
-- of toml: scalars are opaque, of a type `A`, and `empty` is what a missing key starts from, `Null` or an
-- empty table. A map is its entries, in some order.
pub mod Lookup
pub mod Tests
use mathlib.Core.Logic.{ite}
use nyne.Prelude.{Option, none, some}

mutual
  pub data Value (K A : Type 0) : Type 0 where
    scalar : A → Value K A
    array : Values K A → Value K A
    table : Table K A → Value K A

  pub data Values (K A : Type 0) : Type 0 where
    nil : Values K A
    cons : Value K A → Values K A → Values K A

  pub data Table (K A : Type 0) : Type 0 where
    no_entry : Table K A
    entry : K → Value K A → Table K A → Table K A

module _ {K A : Type 0} where
  unfoldable pub extend : Values K A → Values K A → Values K A
  extend nil over = over
  extend (cons v vs) over = cons v (extend vs over)

  abbrev pub or_empty : Value K A → Option (Value K A) → Value K A
  or_empty empty none = empty
  or_empty empty (some v) = v

module _ {K A : Type 0} (eq : Discrete K) (empty : Value K A) where
  unfoldable pub get : K → Table K A → Option (Value K A)
  get k no_entry = none
  get k (entry j v rest) = ite (eq j k) (some v) (get k rest)

  unfoldable pub put : K → Value K A → Table K A → Table K A
  put k v no_entry = entry k v no_entry
  put k v (entry j w rest) = ite (eq j k) (entry j v rest) (entry j w (put k v rest))

  -- `deep_merge` with `merge_maps` and `extend_arrays`; an entry that is missing starts from `empty`.
  unfoldable mutual
    pub deep_merge : Value K A → Value K A → Value K A
    deep_merge (table base) (table over) = table (merge_maps base over)
    deep_merge (array base) (array over) = array (extend base over)
    deep_merge base (scalar a) = scalar a
    deep_merge (scalar a) (array over) = array over
    deep_merge (table base) (array over) = array over
    deep_merge (scalar a) (table over) = table over
    deep_merge (array base) (table over) = table over

    pub merge_maps : Table K A → Table K A → Table K A
    merge_maps base no_entry = base
    merge_maps base (entry k v over) =
        merge_maps (put k (deep_merge (or_empty empty (get k base)) v) base) over
