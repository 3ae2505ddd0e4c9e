-- ===== src/Router/Tree/Extension/Tests.antt =====
-- Runs of the theorems on two extensions that register one directory.
use native.Mathlib.Decide.{ℕ_discrete}
use nyne.Prelude.{ℕ, ◌≡◌, none, [], ◌∷◌}
use nyne.Router.Tree.Build.{build}
use nyne.Router.Tree.Build.Distinct.{no_more}
use nyne.Router.Tree.Build.Levels.{AllDistinct}
use nyne.Router.Tree.Extension.{
  ExtensionCallbacks, RouteExtension, extension, own_dir, no_entries, and_entry, new_builder,
  merge_extensions, apply_to,
}
use nyne.Router.Tree.Extension.Applied.{apply_to-merge_extensions, apply_to-AllDistinct}

abbrev listing : ExtensionCallbacks ℕ ℕ ℕ
listing = record { on_readdir = (λ ctx req. (req, none)) ∷ []; on_lookup = []; handler = none }

abbrev two_dirs : RouteExtension ℕ ℕ ℕ
two_dirs =
    extension
      (and_entry (own_dir 2 (extension no_entries listing))
        (and_entry (own_dir 2 (extension no_entries listing)) no_entries))
      listing

apply_to-merge_extensions_example :
    apply_to ℕ_discrete (merge_extensions two_dirs two_dirs) new_builder
    ≡ apply_to ℕ_discrete two_dirs (apply_to ℕ_discrete two_dirs new_builder)
apply_to-merge_extensions_example =
    apply_to-merge_extensions ℕ_discrete two_dirs two_dirs new_builder

apply_to-AllDistinct_example :
    AllDistinct (build ℕ_discrete (apply_to ℕ_discrete two_dirs new_builder))
apply_to-AllDistinct_example = apply_to-AllDistinct ℕ_discrete two_dirs new_builder no_more
