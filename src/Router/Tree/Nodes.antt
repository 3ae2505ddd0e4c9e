-- ===== src/Router/Tree/Nodes.antt =====
-- The accumulator of nodes, nyne/src/router/node/mod.rs, as the route tree fills it.
use mathlib.Core.Logic.{ite, if_pos, if_neg}
use nyne.Prelude.{
  ◌≡◌, ◌≢◌, refl, sym, ◌∙◌, Option, none, some, List, [], ◌∷◌, ◌++◌, ◌⊎◌, inl, inr, arith,
}
use nyne.Router.Tree.{NamedNode, find, add, add_all}

module _ {Name Caps : Type 0} (eq : Discrete Name) (merge : Caps → Caps → Caps) where
  -- No two nodes have the same name.
  abbrev pub Absent : Name → List (NamedNode Name Caps) → Type 0
  Absent name [] = Unit {0}
  Absent name (n ∷ ns) = (n.name ≢ name) × Absent name ns

  abbrev pub IsDistinct : List (NamedNode Name Caps) → Type 0
  IsDistinct [] = Unit {0}
  IsDistinct (n ∷ ns) = Absent n.name ns × IsDistinct ns

  Absent-add :
      (name : Name) (node : NamedNode Name Caps) (ns : List (NamedNode Name Caps))
      → node.name ≢ name
      → Absent name ns
      → Absent name (add eq merge node ns)
  unfolding add
  Absent-add name node [] other absent = (other, tt)
  Absent-add name node (n ∷ ns) other (first, later) =
      elim (eq n.name node.name)
        as (λ d.
          Absent name
            (ite d (record n { caps = merge n.caps node.caps } ∷ ns) (n ∷ add eq merge node ns))) [
              | yes same ↦ (first, later)
              | no differs ↦ (first, Absent-add name node ns other later)
            ]

  add-IsDistinct :
      (node : NamedNode Name Caps) (ns : List (NamedNode Name Caps))
      → IsDistinct ns
      → IsDistinct (add eq merge node ns)
  unfolding add
  add-IsDistinct node [] distinct = (tt, tt)
  add-IsDistinct node (n ∷ ns) (first, later) =
      elim (eq n.name node.name)
        as (λ d.
          IsDistinct
            (ite d (record n { caps = merge n.caps node.caps } ∷ ns) (n ∷ add eq merge node ns))) [
              | yes same ↦ (first, later)
              | no differs ↦ (
                Absent-add n.name node ns (λ e. differs (sym e)) first,
                add-IsDistinct node ns later,
              )
            ]

  -- Adding nodes keeps names distinct.
  pub add_all-IsDistinct :
      (xs ns : List (NamedNode Name Caps)) → IsDistinct ns → IsDistinct (add_all eq merge xs ns)
  unfolding add_all
  add_all-IsDistinct [] ns distinct = distinct
  add_all-IsDistinct (x ∷ xs) ns distinct =
      add_all-IsDistinct xs (add eq merge x ns) (add-IsDistinct x ns distinct)

  -- What a node of the name becomes when another is added.
  abbrev pub merged : NamedNode Name Caps → Option (NamedNode Name Caps) → NamedNode Name Caps
  merged node none = node
  merged node (some n) = record n { caps = merge n.caps node.caps }

  -- After a node is added, its name finds it, or the node of that name from before, which keeps its place
  -- in a merge; other names find what they found.
  pub find-add :
      (node : NamedNode Name Caps) (ns : List (NamedNode Name Caps)) (name : Name)
      → find eq name (add eq merge node ns)
        ≡ ite (eq node.name name) (some (merged node (find eq name ns))) (find eq name ns)
  unfolding find add
  find-add node [] name = refl
  find-add node (n ∷ ns) name = ground (arith, find-add node ns name)

  -- A list with a node of the name.
  abbrev pub Named : Name → List (NamedNode Name Caps) → Type 0
  Named name [] = ⊥
  Named name (x ∷ xs) = (x.name ≡ name) ⊎ Named name xs

  pub Named-append :
      (name : Name) (xs ys : List (NamedNode Name Caps)) → Named name ys → Named name (xs ++ ys)
  Named-append name [] ys h = h
  Named-append name (x ∷ xs) ys h = inr (Named-append name xs ys h)

  added :
      (name : Name) (x : NamedNode Name Caps) (ns : List (NamedNode Name Caps))
      → x.name ≡ name
      → find eq name (add eq merge x ns) ≢ none
  added name x ns same gone =
      let found : some (merged x (find eq name ns)) ≡ none =
        sym (find-add x ns name ∙ if_pos (eq x.name name) same _ _) ∙ gone in
      cc

  found-add :
      (name : Name) (x : NamedNode Name Caps) (ns : List (NamedNode Name Caps))
      → (x.name ≡ name) ⊎ (find eq name ns ≢ none)
      → find eq name (add eq merge x ns) ≢ none
  found-add name x ns (inl same) gone = added name x ns same gone
  found-add name x ns (inr before) gone = elim (eq x.name name) [
    | yes same ↦ added name x ns same gone
    | no differs ↦ before (sym (find-add x ns name ∙ if_neg (eq x.name name) differs _ _) ∙ gone)
  ]

  pub found-add_all :
      (name : Name) (xs ns : List (NamedNode Name Caps))
      → Named name xs ⊎ (find eq name ns ≢ none)
      → find eq name (add_all eq merge xs ns) ≢ none
  unfolding add_all
  found-add_all name [] ns (inl named) = elim named [ ]
  found-add_all name [] ns (inr before) = before
  found-add_all name (x ∷ xs) ns (inl (inl same)) =
      found-add_all name xs (add eq merge x ns) (inr (found-add name x ns (inl same)))
  found-add_all name (x ∷ xs) ns (inl (inr later)) =
      found-add_all name xs (add eq merge x ns) (inl later)
  found-add_all name (x ∷ xs) ns (inr before) =
      found-add_all name xs (add eq merge x ns) (inr (found-add name x ns (inr before)))
