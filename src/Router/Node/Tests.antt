-- ===== src/Router/Node/Tests.antt =====
-- Runs of the theorems on nodes; names, implementations, paths and times are numbers.
use native.Mathlib.Decide.{ℕ_discrete}
use nyne.Prelude.{ℕ, some, List, [], ◌∷◌}
use nyne.Router.Node.{Node, file_node, merge_capabilities_from}
use nyne.Router.Node.Merged.{readable_slot, slot_in, Answers, add_all-Answers}
use nyne.Router.Tree.{NamedNode, add_all, find}

abbrev reader : Node ℕ ℕ ℕ
reader = record file_node { readable = some 5 }

abbrev writer : Node ℕ ℕ ℕ
writer = record file_node { readable = some 6; writable = some 7 }

abbrev given : List (NamedNode ℕ (Node ℕ ℕ ℕ))
given =
    record { name = 1; caps = file_node }
    ∷ record { name = 2; caps = reader }
    ∷ record { name = 1; caps = writer }
    ∷ []

add_all-Answers_example : Answers ℕ_discrete readable_slot 1 given (
    slot_in readable_slot (find ℕ_discrete 1 (add_all ℕ_discrete merge_capabilities_from given [])))
add_all-Answers_example = add_all-Answers ℕ_discrete readable_slot 1 given
