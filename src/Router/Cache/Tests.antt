-- ===== src/Router/Cache/Tests.antt =====
-- Runs of the theorems on the cache: keys and files are numbers, and a key computes from the file of its number.
use native.Mathlib.Decide.{ℕ_discrete}
use nyne.Prelude.{ℕ, ◌≡◌, ap₂, refl, some, List, [], ◌∷◌, arith}
use nyne.Router.Cache.Coherence.{
  Op, change, access, drop_entry, World, apply, answers, uncached, IsLocal, cache_transparent,
}
use nyne.Router.Cache.Races.{overtaken, access-overtaken}

abbrev view : ℕ → (ℕ → ℕ) → ℕ × ℕ
view key content = (content key, key)

abbrev zeros : ℕ → ℕ
zeros file = 0

view-IsLocal : IsLocal ℕ_discrete ℕ_discrete view
view-IsLocal key before after same = ap₂ (λ value file. (value, file)) same refl

abbrev operations : List (Op ℕ ℕ ℕ)
operations = access 1 ∷ change 1 5 ∷ access 1 ∷ access 2 ∷ drop_entry 1 ∷ access 1 ∷ []

cache_transparent_example :
    answers ℕ_discrete ℕ_discrete view operations
      (record { content = zeros; generations = []; store = [] })
    ≡ uncached ℕ_discrete ℕ_discrete view operations zeros
cache_transparent_example =
    cache_transparent ℕ_discrete ℕ_discrete view view-IsLocal operations zeros (omega arith)

abbrev cold : World ℕ ℕ ℕ ℕ
cold = record { content = zeros; generations = []; store = [] }

access-overtaken_example :
    let (later, answer) =
      apply ℕ_discrete ℕ_discrete view (access 1) (overtaken ℕ_discrete ℕ_discrete view 1 5 cold) in
    (answer ≡ some 0) × (later ≡ overtaken ℕ_discrete ℕ_discrete view 1 5 cold)
access-overtaken_example = access-overtaken ℕ_discrete ℕ_discrete view 1 5 cold
