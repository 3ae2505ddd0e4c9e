-- ===== src/Prelude/Sorting.antt =====
-- Stable sorts, as `sort_by` makes them, and what they keep.
use nyne.Prelude.Tests.{Bool-cases, if◌then◌else◌}
use mathlib.Core.Path.{◌≡◌, refl, subst}
use mathlib.Core.Logic.{◌⊎◌, inl, inr}
use mathlib.Core.Bool.{Bool, true, false}
use Prim.Native.Nat.{ℕ, zero, suc}
use mathlib.Core.Option.{some}
use nyne.Prelude.Lists.{get_elem?}
use mathlib.Core.List.{List, [], ◌∷◌, ◌++◌}

module _ {A : Type 0} where
  -- An element of a list, as a place in it.
  abbrev pub In : A → List A → Type 0
  In x [] = ⊥
  In x (y ∷ ys) = (y ≡ x) ⊎ In x ys

  pub In-left : (x : A) (xs ys : List A) → In x xs → In x (xs ++ ys)
  In-left x [] ys i = absurd i
  In-left x (y ∷ xs) ys (inl e) = inl e
  In-left x (y ∷ xs) ys (inr i) = inr (In-left x xs ys i)

  pub In-right : (x : A) (xs ys : List A) → In x ys → In x (xs ++ ys)
  In-right x [] ys i = i
  In-right x (y ∷ xs) ys i = inr (In-right x xs ys i)

  pub In-append : (x : A) (xs ys : List A) → In x (xs ++ ys) → In x xs ⊎ In x ys
  In-append x [] ys i = inr i
  In-append x (y ∷ xs) ys (inl e) = inl (inl e)
  In-append x (y ∷ xs) ys (inr i) = elim (In-append x xs ys i) [
    | inl j ↦ inl (inr j)
    | inr j ↦ inr j
  ]

  abbrev pub All : (A → Type 0) → List A → Type 0
  All p [] = Unit {0}
  All p (x ∷ xs) = p x × All p xs

  -- A relation between each element and those after it.
  abbrev pub Pairwise : (A → A → Type 0) → List A → Type 0
  Pairwise r [] = Unit {0}
  Pairwise r (x ∷ xs) = All (r x) xs × Pairwise r xs

  pub get_elem?-All :
      (p : A → Type 0) (xs : List A) (i : ℕ) (x : A) → All p xs → get_elem? xs i ≡ some x → p x
  get_elem?-All p [] i x h at = absurd cc
  get_elem?-All p (y ∷ ys) zero x h at = let same : y ≡ x = cc in subst p same h.0
  get_elem?-All p (y ∷ ys) (suc i) x h at = get_elem?-All p ys i x h.1 at

  module _ (le : A → A → Bool) where
    abbrev pub insert_by : A → List A → List A
    insert_by x [] = x ∷ []
    insert_by x (y ∷ ys) = let rest = insert_by x ys in if le x y then x ∷ y ∷ ys else y ∷ rest

    abbrev pub sort_by : List A → List A
    sort_by [] = []
    sort_by (x ∷ xs) = insert_by x (sort_by xs)

    insert_by-All : (p : A → Type 0) (x : A) (xs : List A) → p x → All p xs → All p (insert_by x xs)
    insert_by-All p x [] here h = (here, tt)
    insert_by-All p x (y ∷ ys) here (first, h) = elim (Bool-cases (le x y)) [
      | inl first_one ↦ rw (first_one) ((here, (first, h)))
      | inr later ↦ rw (later) ((first, insert_by-All p x ys here h))
    ]

    pub sort_by-All : (p : A → Type 0) (xs : List A) → All p xs → All p (sort_by xs)
    sort_by-All p [] h = tt
    sort_by-All p (x ∷ xs) (here, h) = insert_by-All p x (sort_by xs) here (sort_by-All p xs h)

    insert_by-inserted : (x : A) (xs : List A) → In x (insert_by x xs)
    insert_by-inserted x [] = inl refl
    insert_by-inserted x (y ∷ ys) = elim (Bool-cases (le x y)) [
      | inl first_one ↦ rw (first_one) (inl refl)
      | inr later ↦ rw (later) (inr (insert_by-inserted x ys))
    ]

    insert_by-In : (x z : A) (xs : List A) → In z xs → In z (insert_by x xs)
    insert_by-In x z [] i = absurd i
    insert_by-In x z (y ∷ ys) i = elim (Bool-cases (le x y)) [
      | inl first_one ↦ rw (first_one) (inr i)
      | inr later ↦ rw (later) (elim i [ inl e ↦ inl e | inr j ↦ inr (insert_by-In x z ys j) ])
    ]

    pub sort_by-In : (z : A) (xs : List A) → In z xs → In z (sort_by xs)
    sort_by-In z [] i = absurd i
    sort_by-In z (x ∷ xs) (inl e) =
        subst (λ q. In q (insert_by x (sort_by xs))) e (insert_by-inserted x (sort_by xs))
    sort_by-In z (x ∷ xs) (inr i) = insert_by-In x z (sort_by xs) (sort_by-In z xs i)

    module _ (r : A → A → Type 0) (yes-r : (x y : A) → le x y ≡ true → r x y)
        (no-r : (x y : A) → le x y ≡ false → r y x)
        (trans : (x y z : A) → r x y → r y z → r x z) where
      All-trans : (x y : A) (zs : List A) → r x y → All (r y) zs → All (r x) zs
      All-trans x y [] less h = tt
      All-trans x y (z ∷ zs) less (first, h) = (trans x y z less first, All-trans x y zs less h)

      insert_by-Pairwise : (x : A) (xs : List A) → Pairwise r xs → Pairwise r (insert_by x xs)
      insert_by-Pairwise x [] h = (tt, tt)
      insert_by-Pairwise x (y ∷ ys) (first, h) = elim (Bool-cases (le x y)) [
        | inl first_one ↦
            rw (first_one)
              (((yes-r x y first_one, All-trans x y ys (yes-r x y first_one) first), (first, h)))
        | inr later ↦
            rw (later)
              ((insert_by-All (r y) x ys (no-r x y later) first, insert_by-Pairwise x ys h))
      ]

      pub sort_by-Pairwise : (xs : List A) → Pairwise r (sort_by xs)
      sort_by-Pairwise [] = tt
      sort_by-Pairwise (x ∷ xs) = insert_by-Pairwise x (sort_by xs) (sort_by-Pairwise xs)
