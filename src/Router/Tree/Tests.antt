-- ===== src/Router/Tree/Tests.antt =====
-- Runs of the theorems on a route tree with one directory; names and capabilities are numbers.
use nyne.Prelude.{ℕ, none, some, List, [], ◌∷◌}
use nyne.Router.Tree.{Op, NamedNode, Request, Callbacks, tree, Entries, nil, cons, content, dir}

abbrev keep_first : ℕ → ℕ → ℕ
keep_first old new = old

abbrev join : List ℕ → ℕ
join [] = 0
join (x ∷ xs) = x

abbrev silent : Callbacks ℕ ℕ ℕ
silent = record { handler = none; on_readdir = []; on_lookup = []; on_create = []; on_op = [] }

abbrev node : ℕ → NamedNode ℕ ℕ
node n = record { name = n; caps = 0 }

abbrev some_entries : Entries ℕ ℕ ℕ
some_entries = cons (content (λ ctx req. some (node 1))) (cons (dir 2 (tree nil silent)) nil)

abbrev request : Op ℕ → Request ℕ ℕ
request op = record { op = op; nodes = [] }
