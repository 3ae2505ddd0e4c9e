-- ===== src/Router/Chain/Terminal.antt =====
-- The parts that `partition` makes of providers, nyne/src/router/pipeline/chain.rs.
use nyne.Prelude.{◌≡◌, refl, Bool, true, false, Bool-cases, List, [], ◌∷◌, inl, inr}
use nyne.Prelude.Sorting.{All, Pairwise}
use nyne.Router.Chain.{Provider, with_terminal}

module _ {Key Priority : Type 0} where
  pub with_terminal-All :
      (p : Provider Key Priority → Type 0) (wanted : Bool) (ps : List (Provider Key Priority))
      → All p ps
      → All p (with_terminal wanted ps)
  with_terminal-All p wanted [] h = tt
  with_terminal-All p true (q ∷ qs) (first, h) = elim (Bool-cases q.terminal) [
    | inl e ↦ simp (e) ((first, with_terminal-All p true qs h))
    | inr e ↦ simp (e) (with_terminal-All p true qs h)
  ]
  with_terminal-All p false (q ∷ qs) (first, h) = elim (Bool-cases q.terminal) [
    | inl e ↦ simp (e) (with_terminal-All p false qs h)
    | inr e ↦ simp (e) ((first, with_terminal-All p false qs h))
  ]

  pub with_terminal-Pairwise :
      (r : Provider Key Priority → Provider Key Priority → Type 0)
      (ps : List (Provider Key Priority))
      → Pairwise r ps
      → Pairwise r (with_terminal false ps)
  with_terminal-Pairwise r [] h = tt
  with_terminal-Pairwise r (q ∷ qs) (first, h) = elim (Bool-cases q.terminal) [
    | inl e ↦ simp (e) (with_terminal-Pairwise r qs h)
    | inr e ↦ simp (e) ((with_terminal-All (r q) false qs first, with_terminal-Pairwise r qs h))
  ]

  pub terminal-with_terminal :
      (wanted : Bool) (ps : List (Provider Key Priority))
      → All (λ p. p.terminal ≡ wanted) (with_terminal wanted ps)
  terminal-with_terminal wanted [] = tt
  terminal-with_terminal true (q ∷ qs) = elim (Bool-cases q.terminal) [
    | inl e ↦ simp (e) ((refl, terminal-with_terminal true qs))
    | inr e ↦ simp (e) (terminal-with_terminal true qs)
  ]
  terminal-with_terminal false (q ∷ qs) = elim (Bool-cases q.terminal) [
    | inl e ↦ simp (e) (terminal-with_terminal false qs)
    | inr e ↦ simp (e) ((refl, terminal-with_terminal false qs))
  ]
