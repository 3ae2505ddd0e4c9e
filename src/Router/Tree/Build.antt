-- ===== src/Router/Tree/Build.antt =====
-- The builder of route trees: `TreeBuilder::build`, `dedup_dirs` and `merge` of
-- nyne/src/router/tree/mod.rs. `dedup_dirs` recurs on trees that it has merged, so it runs on fuel;
-- `build` gives it as much as the tree has entries, which Router.Tree.Build.Enough shows to be enough.
pub mod Distinct
pub mod Enough
pub mod Levels
pub mod Merged
pub mod Tests
use mathlib.Core.Logic.{ite}
use nyne.Prelude.{ℕ, zero, suc, ◌+◌, Option, none, some, List, [], ◌∷◌, ◌++◌}
use nyne.Router.Tree.{
  Act, RouteCtx, Callbacks, RouteTree, tree, Entry, content, dir, capture, rest, Entries, nil, cons,
}

abbrev pub later_handler : {A : Type 0} → Option A → Option A → Option A
later_handler old none = old
later_handler old (some h) = some h

module _ {Name Caps E : Type 0} where
  abbrev pub append_entries : Entries Name Caps E → Entries Name Caps E → Entries Name Caps E
  append_entries nil fs = fs
  append_entries (cons e es) fs = cons e (append_entries es fs)

  unfoldable pub merge_callbacks :
      Callbacks Name Caps E → Callbacks Name Caps E → Callbacks Name Caps E
  merge_callbacks c d = record {
    handler = later_handler c.handler d.handler;
    on_readdir = c.on_readdir ++ d.on_readdir;
    on_lookup = c.on_lookup ++ d.on_lookup;
    on_create = c.on_create ++ d.on_create;
    on_op = c.on_op ++ d.on_op;
  }

  unfoldable pub merge : RouteTree Name Caps E → RouteTree Name Caps E → RouteTree Name Caps E
  merge (tree es c) (tree fs d) = tree (append_entries es fs) (merge_callbacks c d)

  -- The entries of a tree, those below it included.
  unfoldable mutual
    pub size : RouteTree Name Caps E → ℕ
    size (tree es cb) = size_entries es

    pub size_entry : Entry Name Caps E → ℕ
    size_entry (content f) = 1
    size_entry (dir name t) = suc (size t)
    size_entry (capture param t) = suc (size t)
    size_entry (rest param t) = suc (size t)

    pub size_entries : Entries Name Caps E → ℕ
    size_entries nil = 0
    size_entries (cons e es) = size_entry e + size_entries es

module _ {Name Caps E : Type 0} (eq : Discrete Name) where
  -- A directory of a name that is there is merged into it, and the result deduplicated by `dedup`;
  -- another one is appended.
  unfoldable pub place :
      (RouteTree Name Caps E → RouteTree Name Caps E)
      → Name
      → RouteTree Name Caps E
      → Entries Name Caps E
      → Entries Name Caps E
  place dedup name t nil = cons (dir name t) nil
  place dedup name t (cons (dir m u) es) =
      ite (eq m name) (cons (dir m (dedup (merge u t))) es) (cons (dir m u) (place dedup name t es))
  place dedup name t (cons e es) = cons e (place dedup name t es)

  unfoldable pub dedup_loop :
      (RouteTree Name Caps E → RouteTree Name Caps E)
      → Entries Name Caps E
      → Entries Name Caps E
      → Entries Name Caps E
  dedup_loop dedup deduped nil = deduped
  dedup_loop dedup deduped (cons (dir name t) es) = dedup_loop dedup (place dedup name t deduped) es
  dedup_loop dedup deduped (cons e es) = dedup_loop dedup (append_entries deduped (cons e nil)) es

  unfoldable pub dedup_dirs : ℕ → RouteTree Name Caps E → RouteTree Name Caps E
  dedup_dirs zero t = t
  dedup_dirs (suc fuel) (tree es cb) = tree (dedup_loop (dedup_dirs fuel) nil es) cb

  unfoldable pub build : RouteTree Name Caps E → RouteTree Name Caps E
  build t = dedup_dirs (suc (size t)) t
