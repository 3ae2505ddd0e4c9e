-- ===== src/Topo.antt =====
-- The topological sort of plugins and providers, nyne/src/topo.rs. Items are numbered by their
-- positions, and so are the nodes of the graph. `toposort` stands for that of petgraph: it answers a
-- node on a cycle, or the nodes in an order.
pub mod Depths
pub mod Edges
pub mod Order
pub mod Tests
use mathlib.Core.Logic.{ite}
use native.Mathlib.Decide.{ℕ_discrete}
use nyne.Prelude.{
  ℕ, zero, suc, ◌+◌, max, Option, none, some, List, [], ◌∷◌, ◌++◌, ◌⊎◌, inl, inr, get_elem?,
  replicate, length,
}
use nyne.Prelude.Maps.{lookup, insert}

infixl 20 ◌>>=◌
abbrev pub ◌>>=◌ : {A B : Type 0} → Option A → (A → Option B) → Option B
none >>= f = none
some a >>= f = f a

-- An edge, from a dependency to its dependent.
abbrev pub Edge : Type 0
Edge = ℕ × ℕ

pub record Toposort : Type 0 where
  pub order : List ℕ
  pub depths : List ℕ

-- How a sort ends: with an order, with the item of a cycle, or with an index out of range.
pub data Sorted : Type 0 where
  sorted : Toposort → Sorted
  cycle : ℕ → Sorted
  panic : Sorted

unfoldable pub set_elem : List ℕ → ℕ → ℕ → Option (List ℕ)
set_elem [] i v = none
set_elem (x ∷ xs) zero v = some (v ∷ xs)
set_elem (x ∷ xs) (suc i) v = do ys ← set_elem xs i v; some (x ∷ ys)

-- The maximum over the incoming edges of a node, or 0.
unfoldable pub depth_of : List Edge → ℕ → List ℕ → Option ℕ
depth_of [] node depths = some 0
depth_of ((pred, dependent) ∷ edges) node depths =
    let rest = depth_of edges node depths in
    ite (ℕ_discrete dependent node)
      (do above ← get_elem? depths pred; others ← rest; some (max (above + 1) others)) rest

unfoldable pub fill_depths : List Edge → List ℕ → List ℕ → Option (List ℕ)
fill_depths edges [] depths = some depths
fill_depths edges (node ∷ topo_order) depths = do
  depth ← depth_of edges node depths
  filled ← set_elem depths node depth
  fill_depths edges topo_order filled

unfoldable pub compute_depths : List Edge → List ℕ → ℕ → Option (List ℕ)
compute_depths edges topo_order n_items = fill_depths edges topo_order (replicate n_items 0)

module _ {T K : Type 0} (eq : Discrete K) (keys_of deps_of : T → List K) where
  abbrev pub insert_keys : List K → ℕ → List (K × ℕ) → List (K × ℕ)
  insert_keys [] node m = m
  insert_keys (key ∷ keys) node m = insert_keys keys node (insert eq key node m)

  -- The map of each key to the item that has it, the last one if several have.
  unfoldable pub key_to_node : ℕ → List T → List (K × ℕ) → List (K × ℕ)
  key_to_node node [] m = m
  key_to_node node (item ∷ items) m =
      key_to_node (suc node) items (insert_keys (keys_of item) node m)

  abbrev pub edge_to : Option ℕ → ℕ → List Edge
  edge_to none self_node = []
  edge_to (some dep_node) self_node =
      ite (ℕ_discrete dep_node self_node) [] ((dep_node, self_node) ∷ [])

  unfoldable pub edges_of : List (K × ℕ) → ℕ → List K → List Edge
  edges_of m self_node [] = []
  edges_of m self_node (dep ∷ deps) =
      edge_to (lookup eq dep m) self_node ++ edges_of m self_node deps

  unfoldable pub all_edges : List (K × ℕ) → ℕ → List T → List Edge
  all_edges m node [] = []
  all_edges m node (item ∷ items) = edges_of m node (deps_of item) ++ all_edges m (suc node) items

  abbrev pub graph : List T → List Edge
  graph items = all_edges (key_to_node 0 items []) 0 items

  abbrev pub with_depths : List ℕ → Option (List ℕ) → Sorted
  with_depths order none = panic
  with_depths order (some depths) = sorted (record { order = order; depths = depths })

  abbrev pub ending : List T → List ℕ ⊎ ℕ → Sorted
  ending items (inl order) = with_depths order (compute_depths (graph items) order (length items))
  ending items (inr node) = cycle node

  unfoldable pub sort : (ℕ → List Edge → List ℕ ⊎ ℕ) → List T → Sorted
  sort toposort items = ending items (toposort (length items) (graph items))
