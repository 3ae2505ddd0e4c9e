-- ===== src/Topo/Edges.antt =====
-- The edges that `sort` of nyne/src/topo.rs makes of keys and dependencies.
use mathlib.Core.Logic.{ite, if_pos, if_neg}
use native.Mathlib.Decide.{ℕ_discrete}
use nyne.Prelude.{
  ℕ, zero, suc, ◌+◌, ◌≤◌, ◌<◌, ◌≡◌, ◌≢◌, refl, sym, ap, ◌∙◌, subst, Option, none, some, List, [],
  ◌∷◌, length, arith, inl, inr,
}
use nyne.Prelude.Maps.{lookup, insert, lookup-insert}
use nyne.Prelude.Sorting.{In, In-left, In-right, In-append}
use nyne.Topo.{insert_keys, key_to_node, edge_to, edges_of, all_edges, graph}
use nyne.Topo.Depths.{Within}

module _ {T K : Type 0} (eq : Discrete K) (keys_of deps_of : T → List K) where
  abbrev pub Lacks : K → List T → Type 0
  Lacks k [] = Unit {0}
  Lacks k (item ∷ items) = (In k (keys_of item) → ⊥) × Lacks k items

  -- The last item that has a key.
  abbrev pub Owns : ℕ → K → List T → Type 0
  Owns j k [] = ⊥
  Owns zero k (item ∷ items) = In k (keys_of item) × Lacks k items
  Owns (suc j) k (item ∷ items) = Owns j k items

  abbrev pub DependsOn : ℕ → K → List T → Type 0
  DependsOn i k [] = ⊥
  DependsOn zero k (item ∷ items) = In k (deps_of item)
  DependsOn (suc i) k (item ∷ items) = DependsOn i k items

  lookup-insert_keys_kept :
      (k : K) (keys : List K) (node : ℕ) (m : List (K × ℕ))
      → lookup eq k m ≡ some node
      → lookup eq k (insert_keys eq keys_of deps_of keys node m) ≡ some node
  lookup-insert_keys_kept k [] node m h = h
  lookup-insert_keys_kept k (key ∷ keys) node m h =
      lookup-insert_keys_kept k keys node (insert eq key node m)
        (lookup-insert eq k key node m ∙ ground (arith, h))

  lookup-insert_keys :
      (k : K) (keys : List K) (node : ℕ) (m : List (K × ℕ))
      → In k keys
      → lookup eq k (insert_keys eq keys_of deps_of keys node m) ≡ some node
  lookup-insert_keys k [] node m i = absurd i
  lookup-insert_keys k (key ∷ keys) node m (inl e) =
      lookup-insert_keys_kept k keys node (insert eq key node m)
        (lookup-insert eq k key node m ∙ if_pos (eq key k) e _ _)
  lookup-insert_keys k (key ∷ keys) node m (inr i) =
      lookup-insert_keys k keys node (insert eq key node m) i

  lookup-insert_keys_other :
      (k : K) (keys : List K) (node : ℕ) (m : List (K × ℕ))
      → (In k keys → ⊥)
      → lookup eq k (insert_keys eq keys_of deps_of keys node m) ≡ lookup eq k m
  lookup-insert_keys_other k [] node m h = refl
  lookup-insert_keys_other k (key ∷ keys) node m h =
      lookup-insert_keys_other k keys node (insert eq key node m) (λ i. h (inr i))
      ∙ lookup-insert eq k key node m
      ∙ if_neg (eq key k) (λ e. h (inl e)) _ _

  lookup-key_to_node_other :
      (k : K) (node : ℕ) (items : List T) (m : List (K × ℕ))
      → Lacks k items
      → lookup eq k (key_to_node eq keys_of deps_of node items m) ≡ lookup eq k m
  unfolding key_to_node
  lookup-key_to_node_other k node [] m h = refl
  lookup-key_to_node_other k node (item ∷ items) m (not_here, h) =
      lookup-key_to_node_other k (suc node) items _ h
      ∙ lookup-insert_keys_other k (keys_of item) node m not_here

  lookup-key_to_node :
      (k : K) (j node : ℕ) (items : List T) (m : List (K × ℕ))
      → Owns j k items
      → lookup eq k (key_to_node eq keys_of deps_of node items m) ≡ some (node + j)
  unfolding key_to_node
  lookup-key_to_node k zero node [] m h = absurd h
  lookup-key_to_node k (suc j) node [] m h = absurd h
  lookup-key_to_node k zero node (item ∷ items) m (has, h) =
      lookup-key_to_node_other k (suc node) items _ h
      ∙ lookup-insert_keys k (keys_of item) node m has
      ∙ ap some (omega arith)
  lookup-key_to_node k (suc j) node (item ∷ items) m h =
      lookup-key_to_node k j (suc node) items _ h ∙ ap some (omega arith)

  abbrev Below : ℕ → List (K × ℕ) → Type 0
  Below n m = (k : K) (v : ℕ) → lookup eq k m ≡ some v → v < n

  insert-Below :
      (n : ℕ) (key : K) (node : ℕ) (m : List (K × ℕ))
      → node < n
      → Below n m
      → Below n (insert eq key node m)
  insert-Below n key node m room below k v at =
      let found : ite (eq key k) (some node) (lookup eq k m) ≡ some v =
        sym (lookup-insert eq k key node m) ∙ at in
      elim (eq key k) [
        | yes e ↦
            let same : some node ≡ some v = sym (if_pos (eq key k) e _ _) ∙ found in
            let w : node ≡ v = cc in omega (arith, w, room)
        | no ne ↦ below k v (sym (if_neg (eq key k) ne _ _) ∙ found)
      ]

  insert_keys-Below :
      (n : ℕ) (keys : List K) (node : ℕ) (m : List (K × ℕ))
      → node < n
      → Below n m
      → Below n (insert_keys eq keys_of deps_of keys node m)
  insert_keys-Below n [] node m room below = below
  insert_keys-Below n (key ∷ keys) node m room below =
      insert_keys-Below n keys node (insert eq key node m) room
        (insert-Below n key node m room below)

  key_to_node-Below :
      (n node : ℕ) (items : List T) (m : List (K × ℕ))
      → node + length items ≤ n
      → Below n m
      → Below n (key_to_node eq keys_of deps_of node items m)
  unfolding key_to_node
  key_to_node-Below n node [] m room below = below
  key_to_node-Below n node (item ∷ items) m room below =
      key_to_node-Below n (suc node) items _ (omega arith)
        (insert_keys-Below n (keys_of item) node m (omega arith) below)

  edge_to-Within :
      (n : ℕ) (o : Option ℕ) (self_node : ℕ)
      → ((v : ℕ) → o ≡ some v → v < n)
      → Within (edge_to eq keys_of deps_of o self_node) n
  edge_to-Within n none self_node h p d i = absurd i
  edge_to-Within n (some dep_node) self_node h p d i = elim (ℕ_discrete dep_node self_node) [
    | yes e ↦ absurd (subst (In (p, d)) (if_pos (ℕ_discrete dep_node self_node) e _ _) i)
    | no ne ↦ elim (subst (In (p, d)) (if_neg (ℕ_discrete dep_node self_node) ne _ _) i) [
      | inl e ↦ subst (λ q. q.0 < n) e (h dep_node refl)
      | inr j ↦ absurd j
    ]
  ]

  edges_of-Within :
      (n : ℕ) (m : List (K × ℕ)) (self_node : ℕ) (deps : List K)
      → Below n m
      → Within (edges_of eq keys_of deps_of m self_node deps) n
  unfolding edges_of
  edges_of-Within n m self_node [] below p d i = absurd i
  edges_of-Within n m self_node (dep ∷ deps) below p d i = elim (In-append _ _ _ i) [
    | inl j ↦ edge_to-Within n (lookup eq dep m) self_node (below dep) p d j
    | inr j ↦ edges_of-Within n m self_node deps below p d j
  ]

  all_edges-Within :
      (n : ℕ) (m : List (K × ℕ)) (node : ℕ) (items : List T)
      → Below n m
      → Within (all_edges eq keys_of deps_of m node items) n
  unfolding all_edges
  all_edges-Within n m node [] below p d i = absurd i
  all_edges-Within n m node (item ∷ items) below p d i = elim (In-append _ _ _ i) [
    | inl j ↦ edges_of-Within n m node (deps_of item) below p d j
    | inr j ↦ all_edges-Within n m (suc node) items below p d j
  ]

  none_lem : (k : K) (v : ℕ) → lookup {V = ℕ} eq k [] ≡ some v → ⊥
  unfolding lookup
  none_lem k v at = cc

  pub graph-Within : (items : List T) → Within (graph eq keys_of deps_of items) (length items)
  graph-Within items = all_edges-Within (length items) _ 0 items (
      key_to_node-Below (length items) 0 items [] (omega arith)
        (λ k v at. absurd (none_lem k v at)))

  edge_to-In :
      (j self_node : ℕ)
      → j ≢ self_node
      → In (j, self_node) (edge_to eq keys_of deps_of (some j) self_node)
  edge_to-In j self_node ne =
      subst (In (j, self_node)) (sym (if_neg (ℕ_discrete j self_node) ne _ _)) (inl refl)

  edges_of-In :
      (m : List (K × ℕ)) (self_node : ℕ) (deps : List K) (k : K) (j : ℕ)
      → In k deps
      → lookup eq k m ≡ some j
      → j ≢ self_node
      → In (j, self_node) (edges_of eq keys_of deps_of m self_node deps)
  unfolding edges_of
  edges_of-In m self_node [] k j i at ne = absurd i
  edges_of-In m self_node (dep ∷ deps) k j (inl e) at ne = In-left _ _ _ (
      subst (λ o. In (j, self_node) (edge_to eq keys_of deps_of o self_node))
        (sym (ap (λ q. lookup eq q m) e ∙ at)) (edge_to-In j self_node ne))
  edges_of-In m self_node (dep ∷ deps) k j (inr i) at ne =
      In-right _ _ _ (edges_of-In m self_node deps k j i at ne)

  all_edges-In :
      (m : List (K × ℕ)) (node i t : ℕ) (items : List T) (k : K) (j : ℕ)
      → t ≡ node + i
      → DependsOn i k items
      → lookup eq k m ≡ some j
      → j ≢ t
      → In (j, t) (all_edges eq keys_of deps_of m node items)
  unfolding all_edges
  all_edges-In m node i t [] k j w h at ne = absurd h
  all_edges-In m node zero t (item ∷ items) k j w h at ne =
      let same : t ≡ node = omega (arith, w) in
      In-left _ _ _ (
        subst (λ q. In (j, t) (edges_of eq keys_of deps_of m q (deps_of item))) same
          (edges_of-In m t (deps_of item) k j h at ne))
  all_edges-In m node (suc i) t (item ∷ items) k j w h at ne =
      In-right _ _ _ (all_edges-In m (suc node) i t items k j (omega (arith, w)) h at ne)

  pub graph-In :
      (items : List T) (i j : ℕ) (k : K)
      → DependsOn i k items
      → Owns j k items
      → j ≢ i
      → In (j, i) (graph eq keys_of deps_of items)
  graph-In items i j k depends owns ne =
      all_edges-In _ 0 i i items k j (omega arith) depends
        (lookup-key_to_node k j 0 items [] owns ∙ ap some (omega arith)) ne

  pub DependsOn-length : (i : ℕ) (k : K) (items : List T) → DependsOn i k items → i < length items
  DependsOn-length i k [] h = absurd h
  DependsOn-length zero k (item ∷ items) h = omega arith
  DependsOn-length (suc i) k (item ∷ items) h =
      let less = DependsOn-length i k items h in omega (arith, less)
