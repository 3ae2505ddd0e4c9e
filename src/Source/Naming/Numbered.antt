-- ===== src/Source/Naming/Numbered.antt =====
-- Numbered names of siblings: `resolve_level_conflicts` of plugins/source/src/syntax/fs_mapping/mod.rs with
-- `ConflictStrategy::Numbered`.
use Prim.Native.String.{String}
use mathlib.Core.Logic.{ite, if_pos, if_neg}
use nyne.Prelude.{
  ℕ, zero, suc, ◌<◌, ◌≤◌, ◌≡◌, ◌≢◌, refl, ap, ap₂, sym, ◌∙◌, false, Option, none, some, List, [],
  ◌∷◌, length, ltb, text_discrete, arith, inl, inr, Bool-cases, subst,
}
use nyne.Prelude.Maps.{lookup}
use nyne.Source.Fragment.{Fragment, Fragments, nil, cons, info}
use nyne.Source.Naming.{
  numbered, name_indices, entries_at, conflicts, number_label, number_entries, resolve_numbered,
  resolve_level_conflicts,
}
use nyne.Source.Naming.Format.{numbered_name}
use nyne.Source.Naming.Groups.{joined, NamesDistinct, Grouped, groups_lem, entries_at-positions}
use nyne.Source.Naming.Positions.{
  name_at, count, positions, count_before, counted, resolved, name_at-apply_resolutions,
  resolved-append, NotIn, number_from, number_entries-from, resolved-NotIn, positions-other,
  resolved-positions, count_before-length,
}

-- The name of a fragment with `k` earlier siblings of that name.
abbrev pub numbered_at : Option String → (String → ℕ) → Option String
numbered_at none before = none
numbered_at (some n) before = some (number_label n (before n))

group_entries :
    (fs : Fragments) (m : String) (is : List ℕ)
    → is ≡ positions m 0 fs
    → number_entries m 0 (entries_at fs is) ≡ number_from m 0 (positions m 0 fs)
group_entries fs m is whole =
    ap (λ r. number_entries m 0 (entries_at fs r)) whole
    ∙ number_entries-from m 0 (entries_at fs (positions m 0 fs))
    ∙ ap (number_from m 0) (entries_at-positions m fs)

-- No group is of the name at a position.
abbrev Foreign : ℕ → Fragments → List (String × List ℕ) → Type 0
Foreign i fs [] = Unit {0}
Foreign i fs ((m, is) ∷ rest) = (name_at i fs ≢ some m) × Foreign i fs rest

resolved-foreign_group :
    (i : ℕ) (fs : Fragments) (m : String) (is : List ℕ) (o : Option String)
    → is ≡ positions m 0 fs
    → name_at i fs ≢ some m
    → resolved i (number_entries m 0 (entries_at fs is)) o ≡ o
resolved-foreign_group i fs m is o whole other =
    ap (λ r. resolved i r o) (group_entries fs m is whole)
    ∙ resolved-NotIn i m 0 (positions m 0 fs) o
        (subst (λ k. NotIn k (positions m 0 fs)) (omega arith) (positions-other m i 0 fs other))

resolved-Foreign :
    (i : ℕ) (fs : Fragments) (groups : List (String × List ℕ)) (o : Option String)
    → Grouped fs groups
    → Foreign i fs groups
    → resolved i (resolve_numbered (conflicts fs groups)) o ≡ o
unfolding conflicts resolve_numbered resolved
resolved-Foreign i fs [] o h other = refl
resolved-Foreign i fs ((m, is) ∷ rest) o h other = elim (Bool-cases (ltb 1 (length is))) [
  | inl several ↦ rw (several) (
      resolved-append i (number_entries m 0 (entries_at fs is))
        (resolve_numbered (conflicts fs rest)) o
      ∙ ap (resolved i (resolve_numbered (conflicts fs rest)))
          (resolved-foreign_group i fs m is o h.0 other.0)
      ∙ resolved-Foreign i fs rest o h.1 other.1)
  | inr single ↦ rw (single) (resolved-Foreign i fs rest o h.1 other.1)
]

Foreign-lookup :
    (i : ℕ) (fs : Fragments) (n : String) (groups : List (String × List ℕ))
    → name_at i fs ≡ some n
    → lookup text_discrete n groups ≡ none
    → Foreign i fs groups
unfolding lookup
Foreign-lookup i fs n [] at gone = tt
Foreign-lookup i fs n ((m, is) ∷ rest) at gone =
    (elim (text_discrete m n)
        as (λ d.
          ite d (some is) (lookup text_discrete n rest) ≡ none
          → (name_at i fs ≢ some m) × Foreign i fs rest) [
            | yes same ↦ λ e. cc
            | no other ↦
                λ e. ((λ h. (let same : m ≡ n = cc in other same)), Foreign-lookup i fs n rest at e)
          ])
      gone

Foreign-unnamed :
    (i : ℕ) (fs : Fragments) (groups : List (String × List ℕ))
    → name_at i fs ≡ none
    → Foreign i fs groups
Foreign-unnamed i fs [] at = tt
Foreign-unnamed i fs ((m, is) ∷ rest) at = ((λ h. cc), Foreign-unnamed i fs rest at)

number_label-zero : (n : String) (k : ℕ) → k ≡ 0 → number_label n k ≡ n
number_label-zero n zero h = refl
number_label-zero n (suc k) h = absurd (omega arith)

value_of_group :
    (i : ℕ) (fs : Fragments) (n m : String) (js : List ℕ)
    → m ≡ n
    → js ≡ positions m 0 fs
    → name_at i fs ≡ some n
    → resolved i (number_entries m 0 (entries_at fs js)) (some n)
      ≡ some (number_label n (count_before n i fs))
value_of_group i fs n m js same whole at =
    ap (λ r. resolved i r (some n)) (group_entries fs m js whole)
    ∙ ap (λ k. resolved k (number_from m 0 (positions m 0 fs)) (some n)) (omega arith)
    ∙ resolved-positions m i 0 0 fs (some n) (at ∙ ap some (sym same))
    ∙ ap (λ k. some (number_label m k)) (omega arith)
    ∙ ap (λ x. some (number_label x (count_before x i fs))) same

alone :
    (i : ℕ) (fs : Fragments) (n m : String) (js : List ℕ)
    → m ≡ n
    → js ≡ positions m 0 fs
    → name_at i fs ≡ some n
    → ltb 1 (length js) ≡ false
    → count_before n i fs ≡ 0
alone i fs n m js same whole at single =
    let few : length js ≤ 1 = ground arith in
    let size : length js ≡ length (positions n 0 fs) =
      ap length whole ∙ ap (λ x. length (positions x 0 fs)) same in
    omega (arith, count_before-length n i 0 fs at)

some_group : (p : List ℕ) → {c : ℕ} → c < length p → (is : List ℕ) × (joined none p ≡ some is)
some_group [] h = absurd (omega arith)
some_group (x ∷ xs) h = (x ∷ xs, refl)

own_group :
    (i : ℕ) (fs : Fragments) (n : String) (groups : List (String × List ℕ)) (is : List ℕ)
    → NamesDistinct groups
    → Grouped fs groups
    → name_at i fs ≡ some n
    → lookup text_discrete n groups ≡ some is
    → resolved i (resolve_numbered (conflicts fs groups)) (some n)
      ≡ some (number_label n (count_before n i fs))
unfolding lookup conflicts resolve_numbered
own_group i fs n [] is distinct h at found = cc
own_group i fs n ((m, js) ∷ rest) is distinct h at found = elim (text_discrete m n) [
  | yes same ↦
      let foreign =
        Foreign-lookup i fs n rest at
          (ap (λ x. lookup text_discrete x rest) (sym same) ∙ distinct.0) in
      elim (Bool-cases (ltb 1 (length js))) [
        | inl several ↦ rw (several) (
            resolved-append i (number_entries m 0 (entries_at fs js))
              (resolve_numbered (conflicts fs rest)) (some n)
            ∙ ap (resolved i (resolve_numbered (conflicts fs rest)))
                (value_of_group i fs n m js same h.0 at)
            ∙ resolved-Foreign i fs rest (some (number_label n (count_before n i fs))) h.1 foreign)
        | inr single ↦ rw (single) (
            resolved-Foreign i fs rest (some n) h.1 foreign
            ∙ ap some (
                sym (
                  number_label-zero n (count_before n i fs)
                    (alone i fs n m js same h.0 at single))))
      ]
  | no other ↦
      let there : lookup text_discrete n rest ≡ some is =
        sym (if_neg (text_discrete m n) other _ _) ∙ found in
      let rest_of = own_group i fs n rest is distinct.1 h.1 at there in
      elim (Bool-cases (ltb 1 (length js))) [
        | inl several ↦ rw (several) (
            resolved-append i (number_entries m 0 (entries_at fs js))
              (resolve_numbered (conflicts fs rest)) (some n)
            ∙ ap (resolved i (resolve_numbered (conflicts fs rest))) (
                resolved-foreign_group i fs m js (some n) h.0
                  (λ e. (let same : m ≡ n = cc in other same)))
            ∙ rest_of)
        | inr single ↦ rw (single) rest_of
      ]
]

pub resolve_level_conflicts-numbered_at :
    (i : ℕ) (fs : Fragments)
    → i < count fs
    → name_at i (resolve_level_conflicts numbered fs)
      ≡ numbered_at (name_at i fs) (λ n. count_before n i fs)
unfolding resolve_level_conflicts
resolve_level_conflicts-numbered_at i fs h =
    let (distinct, grouped, found) = groups_lem fs in
    name_at-apply_resolutions i (resolve_numbered (conflicts fs (name_indices 0 fs []))) fs h
    ∙ go (name_at i fs) refl distinct grouped found
  where
    go :
        (o : Option String)
        → name_at i fs ≡ o
        → NamesDistinct (name_indices 0 fs [])
        → Grouped fs (name_indices 0 fs [])
        → ((m : String)
            → lookup text_discrete m (name_indices 0 fs []) ≡ joined none (positions m 0 fs))
        → resolved i (resolve_numbered (conflicts fs (name_indices 0 fs []))) o
          ≡ numbered_at o (λ n. count_before n i fs)
    go none at distinct grouped found =
        resolved-Foreign i fs (name_indices 0 fs []) none grouped
          (Foreign-unnamed i fs (name_indices 0 fs []) at)
    go (some n) at distinct grouped found =
        let (is, there) = some_group (positions n 0 fs) (count_before-length n i 0 fs at) in
        own_group i fs n (name_indices 0 fs []) is distinct grouped at (found n ∙ there)

-- With the numbered strategy, of three siblings of which two have a name and the third has that name with the number 2, two have
-- the same name afterwards.
pub resolve_level_conflicts-collides :
    (f g h : Fragment) (n : String)
    → (info f).fs_name ≡ some n
    → (info g).fs_name ≡ some n
    → (info h).fs_name ≡ some (numbered_name n 2)
    → n ≢ numbered_name n 2
    → let fs = cons f (cons g (cons h nil)) in
      name_at 1 (resolve_level_conflicts numbered fs)
      ≡ name_at 2 (resolve_level_conflicts numbered fs)
unfolding name_at count_before count
resolve_level_conflicts-collides f g h n first second third apart =
    let fs = cons f (cons g (cons h nil)) in
    let again = numbered_name n 2 in
    let one_before : count_before n 1 fs ≡ 1 =
      ap (λ o. counted o n 0) first ∙ if_pos (text_discrete n n) refl _ _ in
    let none_before : count_before again 2 fs ≡ 0 =
      ap₂ (λ o p. counted o again (counted p again 0)) first second
      ∙ if_neg (text_discrete n again) apart _ _
      ∙ if_neg (text_discrete n again) apart _ _ in
    resolve_level_conflicts-numbered_at 1 fs (omega arith)
    ∙ ap (λ o. numbered_at o (λ m. count_before m 1 fs)) second
    ∙ ap (λ k. some (number_label n k)) one_before
    ∙ sym (ap (λ k. some (number_label again k)) none_before)
    ∙ sym (ap (λ o. numbered_at o (λ m. count_before m 2 fs)) third)
    ∙ sym (resolve_level_conflicts-numbered_at 2 fs (omega arith))
