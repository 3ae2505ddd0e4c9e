-- ===== src/Topo/Tests.antt =====
-- Runs of the sort on two items, of which the first depends on the second.
use native.Mathlib.Decide.{ℕ_discrete}
use nyne.Prelude.{
  ℕ, zero, suc, ◌<◌, refl, ap, List, [], ◌∷◌, ◌⊎◌, inl, inr, arith, ◌==◌, if◌then◌else◌,
}
use nyne.Prelude.Maps.{lookup, insert, remove}
use nyne.Prelude.Sorting.{In}
use nyne.Topo.{Edge, key_to_node, edges_of, all_edges, sort}
use nyne.Topo.Depths.{Away}
use nyne.Topo.Order.{Answer, SortEnds, sort-SortEnds}

abbrev pub second_first : ℕ → List Edge → List ℕ ⊎ ℕ
second_first n edges = inl (1 ∷ 0 ∷ [])

abbrev keys : ℕ → List ℕ
keys item = item ∷ []

-- Item 3 depends on item 5, and on one that is missing.
abbrev dependencies : ℕ → List ℕ
dependencies item = if item == 3 then 8 ∷ 5 ∷ [] else []

both : (i : ℕ) → i < 2 → In i (1 ∷ 0 ∷ [])
both zero less = inr (inl refl)
both (suc zero) less = inl refl
both (suc (suc i)) less = absurd (omega (arith, less))

before_second : (pred : ℕ) → In {A = Edge} (pred, 1) ((1, 0) ∷ []) → Away pred (1 ∷ 0 ∷ [])
before_second pred (inl e) = let w = ap (λ q. q.1) e in absurd (omega (arith, w))
before_second pred (inr no_more) = absurd no_more

before_first : (pred : ℕ) → In {A = Edge} (pred, 0) ((1, 0) ∷ []) → Away pred (0 ∷ [])
before_first pred (inl e) = let w = ap (λ q. q.0) e in ((λ z. omega (arith, w, z)), tt)
before_first pred (inr no_more) = absurd no_more

pub second_first-Answer : Answer 2 ((1, 0) ∷ []) (inl (1 ∷ 0 ∷ []))
second_first-Answer = (
  (omega arith, ((λ e. omega (arith, e)), tt), before_second, (omega arith, tt, before_first, tt)),
  both,
)

sort-SortEnds_example :
    SortEnds ℕ_discrete keys dependencies
      (3 ∷ 5 ∷ [])
      (sort ℕ_discrete keys dependencies second_first (3 ∷ 5 ∷ []))
unfolding key_to_node edges_of all_edges lookup insert remove ℕ_discrete
sort-SortEnds_example =
    sort-SortEnds ℕ_discrete keys dependencies (3 ∷ 5 ∷ []) second_first second_first-Answer
