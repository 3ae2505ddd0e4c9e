-- ===== src/Router/Chain/Members.antt =====
-- Each provider gets into the chain, nyne/src/router/pipeline/chain.rs.
use nyne.Prelude.{
  ℕ, zero, suc, ◌<◌, ◌≡◌, refl, sym, ap, ◌∙◌, subst, Bool, true, false, Bool-cases, Option, none,
  some, List, [], ◌∷◌, length, get_elem?, ◌⊎◌, inl, inr, arith,
}
use nyne.Prelude.Sorting.{In}
use nyne.Router.Chain.{Provider, Row, row, push_row, rows, providers_of, with_terminal}

module _ {Key Priority : Type 0} where
  pub providers_of-In :
      (r : Row Key Priority) (rs : List (Row Key Priority))
      → In r rs
      → In r.provider (providers_of rs)
  providers_of-In r [] i = absurd i
  providers_of-In r (q ∷ rs) (inl e) = inl (ap (λ q. q.provider) e)
  providers_of-In r (q ∷ rs) (inr i) = inr (providers_of-In r rs i)

  pushed :
      (o : Option (Row Key Priority)) (r : Row Key Priority) (rs : List (Row Key Priority))
      → o ≡ some r ⊎ In r rs
      → In r (push_row o rs)
  pushed none r rs (inl e) = absurd cc
  pushed none r rs (inr i) = i
  pushed (some q) r rs (inl e) = inl cc
  pushed (some q) r rs (inr i) = inr i

  pub rows-In :
      (providers : List (Provider Key Priority)) (depths order : List ℕ) (idx depth : ℕ)
      (p : Provider Key Priority)
      → get_elem? providers idx ≡ some p
      → get_elem? depths idx ≡ some depth
      → In idx order
      → In (record { depth = depth; provider = p }) (rows providers depths order)
  unfolding rows
  rows-In providers depths [] idx depth p at deep i = absurd i
  rows-In providers depths (j ∷ order) idx depth p at deep (inl e) = pushed _ _ _ (
      inl (
        subst
          (λ k.
            row (get_elem? providers k) (get_elem? depths k)
            ≡ some (record { depth = depth; provider = p }))
          (sym e) (rw (at, deep) (refl))))
  rows-In providers depths (j ∷ order) idx depth p at deep (inr i) =
      pushed _ _ _ (inr (rows-In providers depths order idx depth p at deep i))

  pub place_of :
      (p : Provider Key Priority) (ps : List (Provider Key Priority))
      → In p ps
      → (idx : ℕ) × (idx < length ps) × (get_elem? ps idx ≡ some p)
  place_of p [] i = absurd i
  place_of p (q ∷ qs) (inl e) = (zero, omega arith, ap some e)
  place_of p (q ∷ qs) (inr i) =
      let (idx, less, at) = place_of p qs i in (suc idx, omega (arith, less), at)

  pub with_terminal-In :
      (wanted : Bool) (p : Provider Key Priority) (ps : List (Provider Key Priority))
      → p.terminal ≡ wanted
      → In p ps
      → In p (with_terminal wanted ps)
  with_terminal-In wanted p [] h i = absurd i
  with_terminal-In true p (q ∷ qs) h (inl e) =
      let w : q.terminal ≡ true = ap (λ q. q.terminal) e ∙ h in simp (w) (inl e)
  with_terminal-In true p (q ∷ qs) h (inr i) = elim (Bool-cases q.terminal) [
    | inl w ↦ simp (w) (inr (with_terminal-In true p qs h i))
    | inr w ↦ simp (w) (with_terminal-In true p qs h i)
  ]
  with_terminal-In false p (q ∷ qs) h (inl e) =
      let w : q.terminal ≡ false = ap (λ q. q.terminal) e ∙ h in simp (w) (inl e)
  with_terminal-In false p (q ∷ qs) h (inr i) = elim (Bool-cases q.terminal) [
    | inl w ↦ simp (w) (with_terminal-In false p qs h i)
    | inr w ↦ simp (w) (inr (with_terminal-In false p qs h i))
  ]
