-- ===== src/Lsp/Diagnostics/Tests.antt =====
-- Runs of the theorems on the diagnostics of two files.
use native.Mathlib.Decide.{ℕ_discrete}
use nyne.Prelude.{ℕ, ◌≡◌, refl, false, some, List, [], ◌∷◌, ◌++◌, arith}
use nyne.Prelude.Maps.{lookup}
use nyne.Lsp.Diagnostics.{Files, Event, marked, published, removed, notified, locked, get_or_wait}
use nyne.Lsp.Diagnostics.Waiting.{AllKeep, Reaches, dirty_entry, get_or_wait-published}

abbrev files : Files ℕ ℕ
files = (1, dirty_entry (100 ∷ [])) ∷ []

there : lookup ℕ_discrete 1 files ≡ some (dirty_entry (100 ∷ []))
unfolding lookup ℕ_discrete
there = refl

-- What happens to another file, and a mark.
abbrev others : List (Event ℕ ℕ)
others = published 2 (7 ∷ []) ∷ marked 1 ∷ removed 2 ∷ notified ∷ locked ∷ []

others-AllKeep : AllKeep 1 others
others-AllKeep = (
  (λ same. absurd (omega (arith, same))),
  (tt, ((λ same. absurd (omega (arith, same))), (tt, (tt, tt)))),
)

-- The publication is notified, and the reader gets the lock before the file is removed.
abbrev then_reached : List (Event ℕ ℕ)
then_reached = published 2 (8 ∷ []) ∷ notified ∷ marked 2 ∷ locked ∷ removed 1 ∷ []

then_reached-Reaches : Reaches 1 false then_reached
then_reached-Reaches =
    ((λ same. absurd (omega (arith, same))), ((λ same. absurd (omega (arith, same))), tt))

get_or_wait-published_example :
    (get_or_wait ℕ_discrete 1 files (others ++ published 1 (200 ∷ []) ∷ then_reached)).0 ≡ 200 ∷ []
get_or_wait-published_example =
    get_or_wait-published ℕ_discrete 1 others then_reached files (100 ∷ []) (200 ∷ []) there
      others-AllKeep then_reached-Reaches
