-- ===== src/Source/Plan/Order.antt =====
-- The order and the conflict check of plugins/source/src/edit/plan/mod.rs.
use mathlib.Core.List.{Perm}
use mathlib.Core.List.Perm
use nyne.Prelude.{
  ℕ, ◌≤◌, ◌≡◌, true, false, none, some, List, [], ◌∷◌, arith, Fits, Bool-cases, if_cases, inl, inr,
}
use nyne.Source.Plan.{
  ResolvedEdit, cmp_ascending, comes_after, insert_sorted, sort, conflicts, check_conflicts,
}
use nyne.Source.Plan.Apply.{Chain}

-- Edits in a text of `n` bytes.
abbrev pub AllFit : ℕ → List ResolvedEdit → Type 0
AllFit n [] = Unit {0}
AllFit n (e ∷ es) = Fits n e.byte_range × AllFit n es

-- The starts do not decrease.
abbrev pub StartsFrom : ℕ → List ResolvedEdit → Type 0
StartsFrom a [] = Unit {0}
StartsFrom a (e ∷ es) = (a ≤ e.byte_range.start) × StartsFrom e.byte_range.start es

StartsFrom-le : {a b : ℕ} (es : List ResolvedEdit) → b ≤ a → StartsFrom a es → StartsFrom b es
StartsFrom-le [] h s = tt
StartsFrom-le (e ∷ es) h (first, later) = (omega arith, later)

after-start :
    (a b : ResolvedEdit)
    → comes_after (cmp_ascending a b) ≡ true
    → b.byte_range.start ≤ a.byte_range.start
unfolding cmp_ascending
after-start a b h = ground arith

not_after-start :
    (a b : ResolvedEdit)
    → comes_after (cmp_ascending a b) ≡ false
    → a.byte_range.start ≤ b.byte_range.start
unfolding cmp_ascending
not_after-start a b h = ground arith

insert_sorted-StartsFrom :
    (a : ℕ) (e : ResolvedEdit) (es : List ResolvedEdit)
    → a ≤ e.byte_range.start
    → StartsFrom a es
    → StartsFrom a (insert_sorted e es)
unfolding insert_sorted
insert_sorted-StartsFrom a e [] h s = (h, tt)
insert_sorted-StartsFrom a e (x ∷ xs) h (first, later) =
    elim (Bool-cases (comes_after (cmp_ascending e x))) [
      | inl after ↦
          rw after
            (first, insert_sorted-StartsFrom x.byte_range.start e xs (after-start e x after) later)
      | inr before ↦ rw before (h, (not_after-start e x before, later))
    ]

sort-StartsFrom : (es : List ResolvedEdit) → StartsFrom 0 (sort es)
unfolding sort
sort-StartsFrom [] = tt
sort-StartsFrom (e ∷ es) = insert_sorted-StartsFrom 0 e (sort es) (omega arith) (sort-StartsFrom es)

insert_sorted-Perm :
    (e : ResolvedEdit) (es : List ResolvedEdit) → Perm (insert_sorted e es) (e ∷ es)
unfolding insert_sorted
insert_sorted-Perm e [] = Perm.rfl
insert_sorted-Perm e (x ∷ xs) = elim (Bool-cases (comes_after (cmp_ascending e x))) [
  | inl after ↦ rw after (Perm.trans (Perm.cons x (insert_sorted-Perm e xs)) (Perm.swap e x xs))
  | inr before ↦ rw before Perm.rfl
]

-- Sorting loses no edit and makes none up.
pub sort-Perm : (es : List ResolvedEdit) → Perm (sort es) es
unfolding sort
sort-Perm [] = Perm.rfl
sort-Perm (e ∷ es) = Perm.trans (insert_sorted-Perm e (sort es)) (Perm.cons e (sort-Perm es))

insert_sorted-AllFit :
    (n : ℕ) (e : ResolvedEdit) (es : List ResolvedEdit)
    → Fits n e.byte_range
    → AllFit n es
    → AllFit n (insert_sorted e es)
unfolding insert_sorted
insert_sorted-AllFit n e [] f all = (f, tt)
insert_sorted-AllFit n e (x ∷ xs) f (first, later) =
    elim (Bool-cases (comes_after (cmp_ascending e x))) [
      | inl after ↦ rw after (first, insert_sorted-AllFit n e xs f later)
      | inr before ↦ rw before (f, (first, later))
    ]

sort-AllFit : (n : ℕ) (es : List ResolvedEdit) → AllFit n es → AllFit n (sort es)
unfolding sort
sort-AllFit n [] all = tt
sort-AllFit n (e ∷ es) (first, later) =
    insert_sorted-AllFit n e (sort es) first (sort-AllFit n es later)

-- Neighbours without a conflict: the first ends where the second starts or before.
apart :
    {n : ℕ} (a b : ResolvedEdit)
    → Fits n a.byte_range
    → a.byte_range.start ≤ b.byte_range.start
    → conflicts a b ≡ false
    → a.byte_range.end ≤ b.byte_range.start
unfolding conflicts
apart a b fits h clear = ground (arith, fits.ordered)

no_conflict-first :
    (a b : ResolvedEdit) (es : List ResolvedEdit)
    → check_conflicts (a ∷ b ∷ es) ≡ none
    → (conflicts a b ≡ false) × (check_conflicts (b ∷ es) ≡ none)
unfolding check_conflicts
no_conflict-first a b es h =
    elim (if_cases (conflicts a b) (some (a, b)) (check_conflicts (b ∷ es)) h) [
      | inl (clash, found) ↦ cc
      | inr clear ↦ clear
    ]

-- A pair that the check answers with does overlap.
pub check_conflicts-some :
    (es : List ResolvedEdit) (pair : ResolvedEdit × ResolvedEdit)
    → check_conflicts es ≡ some pair
    → conflicts pair.0 pair.1 ≡ true
unfolding check_conflicts
check_conflicts-some [] pair h = cc
check_conflicts-some (a ∷ []) pair h = cc
check_conflicts-some (a ∷ b ∷ es) pair h =
    elim (if_cases (conflicts a b) (some (a, b)) (check_conflicts (b ∷ es)) h) [
      | inl (clash, found) ↦ let same : (a, b) ≡ pair = cc in rw (← same) clash
      | inr (clear, later) ↦ check_conflicts-some (b ∷ es) pair later
    ]

sorted-Chain :
    (n c : ℕ) (es : List ResolvedEdit)
    → c ≤ n
    → StartsFrom c es
    → AllFit n es
    → check_conflicts es ≡ none
    → Chain n c es
sorted-Chain n c [] h starts fits clear = h
sorted-Chain n c (a ∷ []) h (first, later) (fit, fits) clear = (first, fit.ordered, fit.within)
sorted-Chain n c (a ∷ b ∷ es) h (first, (next, later)) (fit, fits) clear =
    let (gap, rest) = no_conflict-first a b es clear in
    (
      first,
      fit.ordered,
      sorted-Chain n a.byte_range.end (b ∷ es) fit.within (apart a b fit next gap, later) fits rest,
    )

-- The check of neighbours is enough: sorted edits that pass it lie one behind the other.
pub check_conflicts-sort :
    (n : ℕ) (es : List ResolvedEdit)
    → AllFit n es
    → check_conflicts (sort es) ≡ none
    → Chain n 0 (sort es)
check_conflicts-sort n es fits clear =
    sorted-Chain n 0 (sort es) (omega arith) (sort-StartsFrom es) (sort-AllFit n es fits) clear
