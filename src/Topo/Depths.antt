-- ===== src/Topo/Depths.antt =====
-- `compute_depths` of nyne/src/topo.rs.
use mathlib.Core.Logic.{if_pos, if_neg}
use native.Mathlib.Decide.{ℕ_discrete}
use nyne.Prelude.{
  ℕ, zero, suc, ◌+◌, max, ◌<◌, ◌≡◌, ◌≢◌, refl, sym, ap, ◌∙◌, subst, some, List, [], ◌∷◌, get_elem?,
  replicate, length, length-replicate, arith, inl, inr,
}
use nyne.Prelude.Sorting.{In}
use nyne.Topo.{Edge, set_elem, depth_of, fill_depths, compute_depths}

abbrev pub Away : ℕ → List ℕ → Type 0
Away x [] = Unit {0}
Away x (y ∷ ys) = (y ≢ x) × Away x ys

-- An order of nodes below a bound in which no node repeats and no edge leads to a node from itself
-- or from one after it.
abbrev pub Topological : ℕ → List Edge → List ℕ → Type 0
Topological n edges [] = Unit {0}
Topological n edges (node ∷ order) =
    (node < n)
    × Away node order
    × ((pred : ℕ) → In (pred, node) edges → Away pred (node ∷ order))
    × Topological n edges order

pub get_elem?-in_range :
    (xs : List ℕ) (i : ℕ) → i < length xs → ((v : ℕ) × (get_elem? xs i ≡ some v))
get_elem?-in_range [] i h = absurd (omega (arith, h))
get_elem?-in_range (x ∷ xs) zero h = (x, refl)
get_elem?-in_range (x ∷ xs) (suc i) h = get_elem?-in_range xs i (omega arith)

-- What `set_elem` does to a list, at an index in range.
record Replaced (xs : List ℕ) (i v : ℕ) : Type 0 where
  ys : List ℕ
  set : set_elem xs i v ≡ some ys
  same : get_elem? ys i ≡ some v
  other : (j : ℕ) → j ≢ i → get_elem? ys j ≡ get_elem? xs j
  as_long : length ys ≡ length xs

other_head : (x v : ℕ) (xs : List ℕ) (j : ℕ) → j ≢ 0 → get_elem? (v ∷ xs) j ≡ get_elem? (x ∷ xs) j
other_head x v xs zero ne = absurd (ne refl)
other_head x v xs (suc j) ne = refl

other_tail :
    (x : ℕ) (xs ys : List ℕ) (i : ℕ)
    → ((j : ℕ) → j ≢ i → get_elem? ys j ≡ get_elem? xs j)
    → (j : ℕ) → j ≢ suc i
    → get_elem? (x ∷ ys) j ≡ get_elem? (x ∷ xs) j
other_tail x xs ys i other zero ne = refl
other_tail x xs ys i other (suc j) ne = other j (λ e. ne (ap suc e))

set_elem-Replaced : (xs : List ℕ) (i v : ℕ) → i < length xs → Replaced xs i v
unfolding set_elem
set_elem-Replaced [] i v h = absurd (omega (arith, h))
set_elem-Replaced (x ∷ xs) zero v h = record {
  ys = v ∷ xs;
  set = refl;
  same = refl;
  other = other_head x v xs;
  as_long = refl;
}
set_elem-Replaced (x ∷ xs) (suc i) v h =
    let r = set_elem-Replaced xs i v (omega arith) in
    record {
      ys = x ∷ r.ys;
      set = rw (r.set) (refl);
      same = r.same;
      other = other_tail x xs r.ys i r.other;
      as_long = ap suc r.as_long;
    }

abbrev Above : List Edge → ℕ → List ℕ → ℕ → Type 0
Above edges node depths depth =
    (pred v : ℕ) → In (pred, node) edges → get_elem? depths pred ≡ some v → v < depth

max-Above :
    (p d node : ℕ) (edges : List Edge) (depths : List ℕ) (old depth : ℕ)
    → get_elem? depths p ≡ some old
    → Above edges node depths depth
    → Above ((p, d) ∷ edges) node depths (max (old + 1) depth)
max-Above p d node edges depths old depth found above pred v (inl e) at =
    let same : some v ≡ some old = sym at ∙ ap (get_elem? depths) (sym (ap (λ q. q.0) e)) ∙ found in
    let w : v ≡ old = cc in omega (arith, w)
max-Above p d node edges depths old depth found above pred v (inr i) at =
    let less = above pred v i at in omega (arith, less)

other-Above :
    (p d node : ℕ) (edges : List Edge) (depths : List ℕ) (depth : ℕ)
    → d ≢ node
    → Above edges node depths depth
    → Above ((p, d) ∷ edges) node depths depth
other-Above p d node edges depths depth ne above pred v (inl e) at = absurd (ne (ap (λ q. q.1) e))
other-Above p d node edges depths depth ne above pred v (inr i) at = above pred v i at

-- What `depth_of` finds: a depth above those of all dependencies.
record Bound (edges : List Edge) (node : ℕ) (depths : List ℕ) : Type 0 where
  depth : ℕ
  found : depth_of edges node depths ≡ some depth
  above : Above edges node depths depth

depth_of-Bound :
    (edges : List Edge) (node : ℕ) (depths : List ℕ)
    → ((pred dependent : ℕ) → In (pred, dependent) edges → pred < length depths)
    → Bound edges node depths
unfolding depth_of
depth_of-Bound [] node depths h = record { depth = 0; found = refl; above = λ pred v i. absurd i }
depth_of-Bound ((p, d) ∷ edges) node depths h =
    let rest = depth_of-Bound edges node depths (λ pred dependent i. h pred dependent (inr i)) in
    let old = get_elem?-in_range depths p (h p d (inl refl)) in
    elim (ℕ_discrete d node) [
      | yes e ↦ record {
        depth = max (old.0 + 1) rest.depth;
        found = if_pos (ℕ_discrete d node) e _ _ ∙ rw (old.1, rest.found) (refl);
        above = max-Above p d node edges depths old.0 rest.depth old.1 rest.above;
      }
      | no ne ↦ record {
        depth = rest.depth;
        found = if_neg (ℕ_discrete d node) ne _ _ ∙ rest.found;
        above = other-Above p d node edges depths rest.depth ne rest.above;
      }
    ]

-- Between two items, the first has a smaller depth.
pub record Deeper (depths : List ℕ) (pred dependent : ℕ) : Type 0 where
  pub low : ℕ
  pub high : ℕ
  pub at_pred : get_elem? depths pred ≡ some low
  pub at_dependent : get_elem? depths dependent ≡ some high
  pub less : low < high

-- What the loop over an order makes of a list of depths.
record Filled (edges : List Edge) (order depths : List ℕ) : Type 0 where
  final : List ℕ
  fill : fill_depths edges order depths ≡ some final
  unchanged : (i : ℕ) → Away i order → get_elem? final i ≡ get_elem? depths i
  deeper :
      (pred dependent : ℕ)
      → In (pred, dependent) edges
      → In dependent order
      → Deeper final pred dependent
  as_long : length final ≡ length depths

abbrev pub Within : List Edge → ℕ → Type 0
Within edges n = (pred dependent : ℕ) → In (pred, dependent) edges → pred < n

first-Deeper :
    (edges : List Edge) (node : ℕ) (order depths : List ℕ) (b : Bound edges node depths)
    (r : Replaced depths node b.depth) (rest : Filled edges order r.ys)
    → Away node order
    → {pred dependent : ℕ} → pred < length depths
    → Away pred (node ∷ order)
    → node ≡ dependent
    → In (pred, dependent) edges
    → Deeper rest.final pred dependent
first-Deeper edges node order depths b r rest alone {pred = pred} {dependent = dependent} h away
      same e =
    let old = get_elem?-in_range depths pred h in
    record {
      low = old.0;
      high = b.depth;
      at_pred = rest.unchanged pred away.1 ∙ r.other pred (λ q. away.0 (sym q)) ∙ old.1;
      at_dependent = ap (get_elem? rest.final) (sym same) ∙ rest.unchanged node alone ∙ r.same;
      less = b.above pred old.0 (subst (λ d. In (pred, d) edges) (sym same) e) old.1;
    }

fill_depths-Filled :
    (edges : List Edge) (order depths : List ℕ)
    → Within edges (length depths)
    → Topological (length depths) edges order
    → Filled edges order depths
unfolding fill_depths
fill_depths-Filled edges [] depths within t = record {
  final = depths;
  fill = refl;
  unchanged = λ i away. refl;
  deeper = λ pred dependent e i. absurd i;
  as_long = refl;
}
fill_depths-Filled edges (node ∷ order) depths within (room, alone, before, t) =
    let b = depth_of-Bound edges node depths within in
    let r = set_elem-Replaced depths node b.depth room in
    let rest =
      fill_depths-Filled edges order r.ys
        (λ pred dependent i. subst (λ n. pred < n) (sym r.as_long) (within pred dependent i))
        (subst (λ n. Topological n edges order) (sym r.as_long) t) in
    record {
      final = rest.final;
      fill = rw (b.found, r.set) (rest.fill);
      unchanged = λ i away. rest.unchanged i away.1 ∙ r.other i (λ e. away.0 (sym e));
      deeper = λ pred dependent e i. elim i [
        | inr j ↦ rest.deeper pred dependent e j
        | inl same ↦
            first-Deeper edges node order depths b r rest alone (within pred dependent e)
              (before pred (subst (λ d. In (pred, d) edges) (sym same) e)) same e
      ];
      as_long = rest.as_long ∙ r.as_long;
    }

pub record Computed (edges : List Edge) (order : List ℕ) (n_items : ℕ) : Type 0 where
  pub depths : List ℕ
  pub computed : compute_depths edges order n_items ≡ some depths
  pub as_long : length depths ≡ n_items
  pub deeper :
      (pred dependent : ℕ)
      → In (pred, dependent) edges
      → In dependent order
      → Deeper depths pred dependent

pub compute_depths-Computed :
    (edges : List Edge) (order : List ℕ) (n_items : ℕ)
    → Within edges n_items
    → Topological n_items edges order
    → Computed edges order n_items
unfolding compute_depths
compute_depths-Computed edges order n_items within t =
    let long = sym (length-replicate n_items 0) in
    let f =
      fill_depths-Filled edges order (replicate n_items 0) (subst (Within edges) long within)
        (subst (λ n. Topological n edges order) long t) in
    record {
      depths = f.final;
      computed = f.fill;
      as_long = f.as_long ∙ sym long;
      deeper = f.deeper;
    }
