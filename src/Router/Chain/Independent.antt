-- ===== src/Router/Chain/Independent.antt =====
-- Rows sorted by depth, nyne/src/router/pipeline/chain.rs: none depends on a later one.
use nyne.Prelude.{
  ℕ, zero, suc, ◌≤◌, ◌≡◌, ◌≢◌, refl, sym, ap, ◌∙◌, subst, Bool, true, false, Option, none, some,
  List, [], ◌∷◌, get_elem?, inl, inr, arith,
}
use nyne.Prelude.Sorting.{In, All, Pairwise, get_elem?-All}
use nyne.Topo.{Toposort}
use nyne.Topo.Edges.{Owns, Lacks, DependsOn}
use nyne.Topo.Order.{DepthOrdered}
use nyne.Router.Chain.{Provider, Row, le_row, ids_of, deps_of, row, push_row, rows, providers_of}

module _ {Key Priority : Type 0} where
  -- Distinct ids.
  abbrev pub IdsDistinct : List (Provider Key Priority) → Type 0
  IdsDistinct = Pairwise (λ p q. q.id ≢ p.id)

  -- A provider that depends on a later one is that one.
  abbrev pub Independent : Provider Key Priority → Provider Key Priority → Type 0
  Independent earlier later = In later.id earlier.dependencies → later.id ≡ earlier.id

  pub record Placed (providers : List (Provider Key Priority)) (depths : List ℕ)
      (r : Row Key Priority) : Type 0 where
    idx : ℕ
    at : get_elem? providers idx ≡ some r.provider
    deep : get_elem? depths idx ≡ some r.depth

  push_row-All :
      (providers : List (Provider Key Priority)) (depths : List ℕ) (idx : ℕ)
      (o : Option (Provider Key Priority)) (d : Option ℕ) (rs : List (Row Key Priority))
      → get_elem? providers idx ≡ o
      → get_elem? depths idx ≡ d
      → All (Placed providers depths) rs
      → All (Placed providers depths) (push_row (row o d) rs)
  push_row-All providers depths idx none d rs at deep h = h
  push_row-All providers depths idx (some p) none rs at deep h = h
  push_row-All providers depths idx (some p) (some depth) rs at deep h =
      (record { idx = idx; at = at; deep = deep }, h)

  pub rows-All :
      (providers : List (Provider Key Priority)) (depths order : List ℕ)
      → All (Placed providers depths) (rows providers depths order)
  unfolding rows
  rows-All providers depths [] = tt
  rows-All providers depths (idx ∷ order) =
      push_row-All providers depths idx _ _ _ refl refl (rows-All providers depths order)

  pub providers_of-All :
      (p : Provider Key Priority → Type 0) (ps : List (Provider Key Priority)) (depths : List ℕ)
      (rs : List (Row Key Priority))
      → All p ps
      → All (Placed ps depths) rs
      → All p (providers_of rs)
  providers_of-All p ps depths [] all h = tt
  providers_of-All p ps depths (r ∷ rs) all (at, h) =
      (get_elem?-All p ps at.idx r.provider all at.at, providers_of-All p ps depths rs all h)

module _ {Key Priority : Type 0} (less_id : Key → Key → Bool)
    (less_priority : Priority → Priority → Bool) where
  pub le_row-true :
      (a b : Row Key Priority) → le_row less_id less_priority a b ≡ true → a.depth ≤ b.depth
  unfolding le_row
  le_row-true a b h = ground arith

  pub le_row-false :
      (a b : Row Key Priority) → le_row less_id less_priority a b ≡ false → b.depth ≤ a.depth
  unfolding le_row
  le_row-false a b h = ground arith

module _ {Key Priority : Type 0} (eq : Discrete Key) where
  head-Lacks :
      (p : Provider Key Priority) (ps : List (Provider Key Priority))
      → All (λ q. q.id ≢ p.id) ps
      → Lacks eq ids_of deps_of p.id ps
  head-Lacks p [] h = tt
  head-Lacks p (q ∷ qs) (other, h) =
      ((λ i. elim i [ inl e ↦ other e | inr no_more ↦ no_more ]), head-Lacks p qs h)

  get-Owns :
      (ps : List (Provider Key Priority)) (j : ℕ) (b : Provider Key Priority)
      → IdsDistinct ps
      → get_elem? ps j ≡ some b
      → Owns eq ids_of deps_of j b.id ps
  get-Owns [] j b distinct at = absurd cc
  get-Owns (p ∷ ps) zero b distinct at =
      let same : p ≡ b = cc in
      (
        inl (ap (λ q. q.id) same),
        subst (λ q. Lacks eq ids_of deps_of q.id ps) same (head-Lacks p ps distinct.0),
      )
  get-Owns (p ∷ ps) (suc j) b distinct at = get-Owns ps j b distinct.1 at

  get-DependsOn :
      (ps : List (Provider Key Priority)) (i : ℕ) (a : Provider Key Priority) (k : Key)
      → In k a.dependencies
      → get_elem? ps i ≡ some a
      → DependsOn eq ids_of deps_of i k ps
  get-DependsOn [] i a k h at = absurd cc
  get-DependsOn (p ∷ ps) zero a k h at =
      let same : p ≡ a = cc in subst (λ q. In k q.dependencies) (sym same) h
  get-DependsOn (p ∷ ps) (suc i) a k h at = get-DependsOn ps i a k h at

  same_place :
      (ps : List (Provider Key Priority)) (i j : ℕ) (a b : Provider Key Priority)
      → get_elem? ps i ≡ some a
      → get_elem? ps j ≡ some b
      → j ≡ i
      → b.id ≡ a.id
  same_place ps i j a b at_a at_b e =
      let same : some b ≡ some a = sym at_b ∙ ap (get_elem? ps) e ∙ at_a in
      let w : b ≡ a = cc in ap (λ q. q.id) w

  depth_order-Independent :
      (ps : List (Provider Key Priority)) (t : Toposort) (a b : Row Key Priority)
      → IdsDistinct ps
      → DepthOrdered eq ids_of deps_of ps t
      → Placed ps t.depths a
      → Placed ps t.depths b
      → a.depth ≤ b.depth
      → Independent a.provider b.provider
  depth_order-Independent ps t a b distinct d at_a at_b le depends =
      elim (eq b.provider.id a.provider.id) [
        | yes e ↦ e
        | no ne ↦
            let deeper =
              d.deeper at_a.idx at_b.idx b.provider.id
                (get-DependsOn ps at_a.idx a.provider b.provider.id depends at_a.at)
                (get-Owns ps at_b.idx b.provider distinct at_b.at)
                (λ e.
                  ne (same_place ps at_a.idx at_b.idx a.provider b.provider at_a.at at_b.at e)) in
            let low : some deeper.low ≡ some b.depth = sym deeper.at_pred ∙ at_b.deep in
            let high : some deeper.high ≡ some a.depth = sym deeper.at_dependent ∙ at_a.deep in
            let l : deeper.low ≡ b.depth = cc in
            let h : deeper.high ≡ a.depth = cc in absurd (omega (arith, l, h, le, deeper.less))
      ]

  pub rows-Independent :
      (ps : List (Provider Key Priority)) (t : Toposort) (rs : List (Row Key Priority))
      → IdsDistinct ps
      → DepthOrdered eq ids_of deps_of ps t
      → All (Placed ps t.depths) rs
      → Pairwise (λ a b. a.depth ≤ b.depth) rs
      → Pairwise Independent (providers_of rs)
  rows-Independent ps t [] distinct d h le = tt
  rows-Independent ps t (r ∷ rs) distinct d (at, h) (least, le) =
      (later rs h least, rows-Independent ps t rs distinct d h le)
    where
      later :
          (rs : List (Row Key Priority))
          → All (Placed ps t.depths) rs
          → All (λ b. r.depth ≤ b.depth) rs
          → All (Independent r.provider) (providers_of rs)
      later [] h least = tt
      later (b ∷ bs) (at_b, h) (first, least) =
          (depth_order-Independent ps t r b distinct d at at_b first, later bs h least)
