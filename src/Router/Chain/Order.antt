-- ===== src/Router/Chain/Order.antt =====
-- The order of a built chain of providers, nyne/src/router/pipeline/chain.rs.
use nyne.Prelude.{ℕ, ◌<◌, ◌≡◌, true, false, List, ◌++◌, length, get_elem?, ◌⊎◌, inl, inr}
use nyne.Prelude.Sorting.{In, All, Pairwise}
use nyne.Topo.{graph}
use nyne.Topo.Order.{Reaches}
use nyne.Router.Chain.{
  Provider, ChainError, dependency_cycle, out_of_range, ids_of, deps_of, id_at, with_terminal,
}
use nyne.Router.Chain.Independent.{Independent}

module _ {Key Priority : Type 0} where
  -- A chain of all providers in two parts: first those that are not terminal, none of which depends
  -- on a later one of them, then the terminal ones.
  pub record InTwo (providers chain : List (Provider Key Priority)) : Type 0 where
    pub regular : List (Provider Key Priority)
    pub terminal : List (Provider Key Priority)
    pub parts : chain ≡ regular ++ terminal
    pub none_terminal : All (λ p. p.terminal ≡ false) regular
    pub all_terminal : All (λ p. p.terminal ≡ true) terminal
    pub independent : Pairwise Independent regular
    pub complete : (p : Provider Key Priority) → In p providers → In p chain

  abbrev pub ChainEnds :
      (eq : Discrete Key) (providers : List (Provider Key Priority))
      → List (Provider Key Priority) ⊎ ChainError Key
      → Type 0
  ChainEnds eq providers (inl chain) = InTwo providers chain
  ChainEnds eq providers (inr (dependency_cycle named)) =
      (item : ℕ) × (item < length (with_terminal false providers))
      × (named ≡ id_at (get_elem? (with_terminal false providers) item))
      × Reaches (graph eq ids_of deps_of (with_terminal false providers)) item item
  ChainEnds eq providers (inr out_of_range) = ⊥
