-- ===== src/Router/Tree/Build/Tests.antt =====
-- Runs of the theorems on a route tree in which two plugins register one directory.
use native.Mathlib.Decide.{ℕ_discrete}
use nyne.Prelude.{ℕ, ◌≡◌, refl, none, some, if◌then◌else◌, [], ◌∷◌, arith}
use nyne.Router.Tree.{Callbacks, callbacks, RouteTree, tree, nil, cons, dir}
use nyne.Router.Tree.Build.{size, dedup_dirs, dedup_loop, place, build}
use nyne.Router.Tree.Build.Distinct.{Built, built, no_more, with_dir, Built-AllDistinct}
use nyne.Router.Tree.Build.Levels.{below, BelowDistinct, AllDistinct}
use nyne.Router.Tree.Build.Enough.{dedup_dirs-build}
use nyne.Router.Tree.Build.Merged.{named, joint, first_callbacks, build-registered}

abbrev silent : Callbacks ℕ ℕ ℕ
silent = record { handler = none; on_readdir = []; on_lookup = []; on_create = []; on_op = [] }

abbrev listing : Callbacks ℕ ℕ ℕ
listing = record {
  handler = none;
  on_readdir = (λ ctx req. (req, none)) ∷ [];
  on_lookup = [];
  on_create = [];
  on_op = [];
}

-- A directory 3 in a directory 2, and another one beside it.
abbrev first_plugin : RouteTree ℕ ℕ ℕ
first_plugin = tree (cons (dir 3 (tree nil silent)) nil) listing

abbrev second_plugin : RouteTree ℕ ℕ ℕ
second_plugin = tree (cons (dir 3 (tree nil listing)) nil) listing

abbrev both_plugins : RouteTree ℕ ℕ ℕ
both_plugins = tree (cons (dir 2 first_plugin) (cons (dir 2 second_plugin) nil)) silent

both-BelowDistinct : BelowDistinct (below both_plugins)
unfolding BelowDistinct
both-BelowDistinct = (((tt, tt), ((tt, tt), tt)), (((tt, tt), ((tt, tt), tt)), tt))

abbrev bare : Callbacks ℕ ℕ ℕ → RouteTree ℕ ℕ ℕ
bare cb = tree nil cb

bare-Built : (cb : Callbacks ℕ ℕ ℕ) → Built ℕ_discrete (bare cb)
unfolding build dedup_dirs dedup_loop
bare-Built cb = built (bare cb) no_more refl

dedup_dirs-build_example : dedup_dirs ℕ_discrete 7 both_plugins ≡ build ℕ_discrete both_plugins
unfolding size
dedup_dirs-build_example =
    dedup_dirs-build ℕ_discrete 7 both_plugins both-BelowDistinct (omega arith)

plugin-Built : (cb : Callbacks ℕ ℕ ℕ) → Built ℕ_discrete (tree (cons (dir 3 (bare cb)) nil) listing)
unfolding build dedup_dirs dedup_loop place
plugin-Built cb =
    built (tree (cons (dir 3 (bare cb)) nil) listing) (with_dir (bare-Built cb) no_more) refl

both-Built : Built ℕ_discrete (build ℕ_discrete both_plugins)
both-Built =
    built both_plugins (with_dir (plugin-Built silent) (with_dir (plugin-Built listing) no_more))
      refl

Built-AllDistinct_example : AllDistinct (build ℕ_discrete both_plugins)
Built-AllDistinct_example = Built-AllDistinct ℕ_discrete both-Built

build-registered_example :
    (first_callbacks ℕ_discrete 2 (below (build ℕ_discrete both_plugins)) ≡ (
      if named ℕ_discrete 2 (below both_plugins)
      then some (joint ℕ_discrete 2 (below both_plugins))
      else none))
    × (callbacks (build ℕ_discrete both_plugins) ≡ silent)
build-registered_example = build-registered ℕ_discrete 2 both_plugins
