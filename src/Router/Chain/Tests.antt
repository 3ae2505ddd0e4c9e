-- ===== src/Router/Chain/Tests.antt =====
-- A chain of three providers, of which the first depends on the second and the third is terminal.
use native.Mathlib.Decide.{ℕ_discrete}
use nyne.Prelude.{ℕ, ◌≡◌, refl, true, false, List, [], ◌∷◌, inl, ltb}
use nyne.Prelude.Maps.{lookup, insert, remove}
use nyne.Topo.{key_to_node, edges_of, all_edges}
use nyne.Topo as Topo
use nyne.Topo.{depth_of, fill_depths, set_elem, compute_depths}
use nyne.Topo.Tests.{second_first}
use nyne.Router.Chain.{Provider, le_row, rows, sort_by_deps, topological_sort}

abbrev lsp : Provider ℕ ℕ
lsp = record { id = 3; dependencies = 9 ∷ 5 ∷ []; priority = 0; terminal = false }

abbrev syntax : Provider ℕ ℕ
syntax = record { id = 5; dependencies = []; priority = 7; terminal = false }

abbrev real_fs : Provider ℕ ℕ
real_fs = record { id = 9; dependencies = []; priority = 0; terminal = true }

abbrev three : List (Provider ℕ ℕ)
three = lsp ∷ real_fs ∷ syntax ∷ []

topological_sort-three :
    topological_sort ℕ_discrete ltb ltb second_first three ≡ inl (syntax ∷ lsp ∷ real_fs ∷ [])
unfolding topological_sort sort_by_deps rows le_row Topo.sort compute_depths fill_depths depth_of
    set_elem key_to_node edges_of all_edges lookup insert remove ℕ_discrete
topological_sort-three = refl
