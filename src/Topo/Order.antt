-- ===== src/Topo/Order.antt =====
-- The results of `sort` of nyne/src/topo.rs.
use nyne.Prelude.{ℕ, ◌<◌, ◌≡◌, ◌≢◌, sym, subst, List, length, ◌⊎◌, inl, inr}
use nyne.Prelude.Sorting.{In}
use nyne.Topo.{Edge, Toposort, Sorted, sorted, cycle, panic, graph, with_depths, ending, sort}
use nyne.Topo.Depths.{Topological, Deeper, compute_depths-Computed}
use nyne.Topo.Edges.{Owns, DependsOn, graph-Within, graph-In, DependsOn-length}

pub data Reaches (edges : List Edge) : ℕ → ℕ → Type 0 where
  step : {a b : ℕ} → In (a, b) edges → Reaches edges a b
  then_on : {a b c : ℕ} → In (a, b) edges → Reaches edges b c → Reaches edges a c

-- What `toposort` promises: a topological order of all nodes, or a node on a cycle.
abbrev pub Answer : ℕ → List Edge → List ℕ ⊎ ℕ → Type 0
Answer n edges (inl order) = Topological n edges order × ((i : ℕ) → i < n → In i order)
Answer n edges (inr node) = (node < n) × Reaches edges node node

module _ {T K : Type 0} (eq : Discrete K) (keys_of deps_of : T → List K) (items : List T) where
  -- An order of the items with their depths, in which an item that depends on the key of another
  -- has a greater depth than the last item with the key.
  pub record DepthOrdered (t : Toposort) : Type 0 where
    pub topological : Topological (length items) (graph eq keys_of deps_of items) t.order
    pub complete : (i : ℕ) → i < length items → In i t.order
    pub as_long : length t.depths ≡ length items
    pub deeper :
        (i j : ℕ) (k : K)
        → DependsOn eq keys_of deps_of i k items
        → Owns eq keys_of deps_of j k items
        → j ≢ i
        → Deeper t.depths j i

  abbrev pub SortEnds : Sorted → Type 0
  SortEnds (sorted t) = DepthOrdered t
  SortEnds (cycle item) = (item < length items) × Reaches (graph eq keys_of deps_of items) item item
  SortEnds panic = ⊥

  with_depths-SortEnds :
      (order : List ℕ)
      → Answer (length items) (graph eq keys_of deps_of items) (inl order)
      → SortEnds (ending eq keys_of deps_of items (inl order))
  with_depths-SortEnds order (topological, complete) =
      let d =
        compute_depths-Computed (graph eq keys_of deps_of items) order (length items)
          (graph-Within eq keys_of deps_of items) topological in
      subst (λ o. SortEnds (with_depths eq keys_of deps_of order o)) (sym d.computed)
        (record {
          topological = topological;
          complete = complete;
          as_long = d.as_long;
          deeper = λ i j k depends owns ne.
              d.deeper j i (graph-In eq keys_of deps_of items i j k depends owns ne)
                (complete i (DependsOn-length eq keys_of deps_of i k items depends));
        })

  ending-SortEnds :
      (answer : List ℕ ⊎ ℕ)
      → Answer (length items) (graph eq keys_of deps_of items) answer
      → SortEnds (ending eq keys_of deps_of items answer)
  ending-SortEnds (inl order) h = with_depths-SortEnds order h
  ending-SortEnds (inr node) h = h

  -- On an answer of `toposort` that is a topological order of all items, the result has that order
  -- and, for each item, a depth that is greater than that of the last item with a key that it
  -- depends on, if that is another item; on an answer that is an item on a cycle, the result is that item. No index is out of
  -- range.
  pub sort-SortEnds :
      (toposort : ℕ → List Edge → List ℕ ⊎ ℕ)
      → Answer
          (length items)
          (graph eq keys_of deps_of items)
          (toposort (length items) (graph eq keys_of deps_of items))
      → SortEnds (sort eq keys_of deps_of toposort items)
  unfolding sort
  sort-SortEnds toposort h =
      ending-SortEnds (toposort (length items) (graph eq keys_of deps_of items)) h
