-- ===== src/Router/Chain.antt =====
-- The chain of providers, nyne/src/router/pipeline/chain.rs: the order that `Chain::build` gives
-- them. A provider is what the order reads of it. `priority` is an `i32`, whose order is
-- `less_priority`; that of ids is `less_id`.
pub mod Independent
pub mod Members
pub mod Order
pub mod Terminal
pub mod Tests
use nyne.Prelude.{
  ℕ, ◌≡◌, Bool, true, false, not, Option, none, some, List, [], ◌∷◌, ◌++◌, ltb, if◌then◌else◌,
  get_elem?, ◌⊎◌, inl, inr,
}
use nyne.Prelude.Sorting.{sort_by}
use nyne.Topo.{Edge, Toposort, Sorted, sorted, cycle, panic}
use nyne.Topo as Topo

pub record Provider (Key Priority : Type 0) : Type 0 where
  pub id : Key
  pub dependencies : List Key
  pub priority : Priority
  pub terminal : Bool

-- An entry of the list that is sorted.
pub record Row (Key Priority : Type 0) : Type 0 where
  pub depth : ℕ
  pub provider : Provider Key Priority

-- `dependency cycle detected`, with the provider, if there is one; or an index out of range.
pub data ChainError (Key : Type 0) : Type 0 where
  dependency_cycle : Option Key → ChainError Key
  out_of_range : ChainError Key

module _ {Key Priority : Type 0} where
  abbrev pub ids_of : Provider Key Priority → List Key
  ids_of p = p.id ∷ []

  abbrev pub deps_of : Provider Key Priority → List Key
  deps_of p = p.dependencies

  abbrev pub row : Option (Provider Key Priority) → Option ℕ → Option (Row Key Priority)
  row none depth = none
  row (some p) none = none
  row (some p) (some depth) = some (record { depth = depth; provider = p })

  abbrev pub push_row :
      Option (Row Key Priority) → List (Row Key Priority) → List (Row Key Priority)
  push_row none rows = rows
  push_row (some r) rows = r ∷ rows

  unfoldable pub rows : List (Provider Key Priority) → List ℕ → List ℕ → List (Row Key Priority)
  rows providers depths [] = []
  rows providers depths (idx ∷ order) =
      push_row (row (get_elem? providers idx) (get_elem? depths idx)) (rows providers depths order)

  abbrev pub providers_of : List (Row Key Priority) → List (Provider Key Priority)
  providers_of [] = []
  providers_of (r ∷ rs) = r.provider ∷ providers_of rs

  abbrev pub id_at : Option (Provider Key Priority) → Option Key
  id_at none = none
  id_at (some p) = some p.id

  -- The two parts of `partition`.
  abbrev pub with_terminal : Bool → List (Provider Key Priority) → List (Provider Key Priority)
  with_terminal wanted [] = []
  with_terminal wanted (p ∷ ps) =
      let rest = with_terminal wanted ps in
      if (if wanted then p.terminal else not p.terminal) then p ∷ rest else rest

  abbrev pub extended :
      List (Provider Key Priority) ⊎ ChainError Key
      → List (Provider Key Priority)
      → List (Provider Key Priority) ⊎ ChainError Key
  extended (inl regular) terminal = inl (regular ++ terminal)
  extended (inr e) terminal = inr e

module _ {Key Priority : Type 0} (less_id : Key → Key → Bool)
    (less_priority : Priority → Priority → Bool) where
  -- Whether an entry may stand before another: the comparison by depth, then by priority, then by id.
  unfoldable pub le_row : Row Key Priority → Row Key Priority → Bool
  le_row a b =
      if ltb a.depth b.depth
      then true
      else if ltb b.depth a.depth
      then false
      else if less_priority a.provider.priority b.provider.priority
      then true
      else if less_priority b.provider.priority a.provider.priority
      then false
      else not (less_id b.provider.id a.provider.id)

  abbrev pub le_id : Provider Key Priority → Provider Key Priority → Bool
  le_id a b = not (less_id b.id a.id)

module _ {Key Priority : Type 0} (eq : Discrete Key) (less_id : Key → Key → Bool)
    (less_priority : Priority → Priority → Bool) (toposort : ℕ → List Edge → List ℕ ⊎ ℕ) where
  abbrev pub in_order :
      List (Provider Key Priority) → Sorted → List (Provider Key Priority) ⊎ ChainError Key
  in_order providers (sorted topo) = inl (
      providers_of (sort_by (le_row less_id less_priority) (rows providers topo.depths topo.order)))
  in_order providers (cycle item) = inr (dependency_cycle (id_at (get_elem? providers item)))
  in_order providers panic = inr out_of_range

  unfoldable pub sort_by_deps :
      List (Provider Key Priority) → List (Provider Key Priority) ⊎ ChainError Key
  sort_by_deps providers = in_order providers (Topo.sort eq ids_of deps_of toposort providers)

  unfoldable pub topological_sort :
      List (Provider Key Priority) → List (Provider Key Priority) ⊎ ChainError Key
  topological_sort providers =
      extended (sort_by_deps (with_terminal false providers))
        (sort_by (le_id less_id less_priority) (with_terminal true providers))
