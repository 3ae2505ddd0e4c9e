-- ===== src/Fuse/Slab/Vacant.antt =====
-- A list of slots as a slab: a removed entry leaves its slot vacant, a new one goes to the end.
use nyne.Prelude.{
  ℕ, zero, suc, ◌≡◌, refl, Option, none, some, Bool, true, false, List, [], ◌∷◌, ◌++◌, ◌==◌,
  if◌then◌else◌, map, map_option, length, arith, ◌||◌, Bool-cases, inl, inr,
}
use nyne.Fuse.Slab.{Slab}

module _ {E : Type 0} where
  abbrev slot : List (Option E) → ℕ → Option E
  slot [] i = none
  slot (x ∷ xs) zero = x
  slot (x ∷ xs) (suc i) = slot xs i

  abbrev vacate : List (Option E) → ℕ → List (Option E)
  vacate [] i = []
  vacate (x ∷ xs) zero = none ∷ xs
  vacate (x ∷ xs) (suc i) = x ∷ vacate xs i

  abbrev fill : List (Option E) → ℕ → E → List (Option E)
  fill [] i e = []
  fill (x ∷ xs) zero e = map_option (λ old. e) x ∷ xs
  fill (x ∷ xs) (suc i) e = x ∷ fill xs i e

  abbrev any_slot : (E → Bool) → List (Option E) → Bool
  any_slot p [] = false
  any_slot p (none ∷ xs) = any_slot p xs
  any_slot p (some e ∷ xs) = p e || any_slot p xs

  pub slot-end : (xs : List (Option E)) → slot xs (length xs) ≡ none
  slot-end [] = refl
  slot-end (x ∷ xs) = slot-end xs

  pub slot-append :
      (xs : List (Option E)) (e : E) (i : ℕ)
      → slot (xs ++ some e ∷ []) i ≡ (if i == length xs then some e else slot xs i)
  slot-append [] e zero = refl
  slot-append [] e (suc i) = ground arith
  slot-append (x ∷ xs) e zero = ground arith
  slot-append (x ∷ xs) e (suc i) = ground (arith, slot-append xs e i)

  pub slot-vacate :
      (xs : List (Option E)) (k i : ℕ) → slot (vacate xs k) i ≡ (if i == k then none else slot xs i)
  slot-vacate [] k i = ground arith
  slot-vacate (x ∷ xs) zero zero = refl
  slot-vacate (x ∷ xs) zero (suc i) = ground arith
  slot-vacate (x ∷ xs) (suc k) zero = ground arith
  slot-vacate (x ∷ xs) (suc k) (suc i) = ground (arith, slot-vacate xs k i)

  pub slot-fill :
      (xs : List (Option E)) (k : ℕ) (e : E) (i : ℕ)
      → slot (fill xs k e) i ≡ (if i == k then map_option (λ old. e) (slot xs k) else slot xs i)
  slot-fill [] k e i = ground arith
  slot-fill (x ∷ xs) zero e zero = refl
  slot-fill (x ∷ xs) zero e (suc i) = ground arith
  slot-fill (x ∷ xs) (suc k) e zero = ground arith
  slot-fill (x ∷ xs) (suc k) e (suc i) = ground (arith, slot-fill xs k e i)

  pub slot-map :
      (f : E → E) (xs : List (Option E)) (i : ℕ)
      → slot (map (map_option f) xs) i ≡ map_option f (slot xs i)
  slot-map f [] i = refl
  slot-map f (x ∷ xs) zero = refl
  slot-map f (x ∷ xs) (suc i) = slot-map f xs i

  pub any_slot-found :
      (p : E → Bool) (xs : List (Option E))
      → any_slot p xs ≡ true
      → (i : ℕ) × (e : E) × (slot xs i ≡ some e) × (p e ≡ true)
  any_slot-found p [] h = cc
  any_slot-found p (none ∷ xs) h =
      let (i, e, found, holds) = any_slot-found p xs h in (suc i, e, found, holds)
  any_slot-found p (some e ∷ xs) h = elim (Bool-cases (p e)) [
    | inl holds ↦ (0, e, refl, holds)
    | inr fails ↦
        let (i, e', found, holds) = any_slot-found p xs (ground arith) in (suc i, e', found, holds)
  ]

  pub any_slot-of_get :
      (p : E → Bool) (xs : List (Option E)) (i : ℕ) (e : E)
      → slot xs i ≡ some e
      → p e ≡ true
      → any_slot p xs ≡ true
  any_slot-of_get p [] i e found holds = cc
  any_slot-of_get p (none ∷ xs) zero e found holds = cc
  any_slot-of_get p (none ∷ xs) (suc i) e found holds = any_slot-of_get p xs i e found holds
  any_slot-of_get p (some x ∷ xs) zero e found holds = ground arith
  any_slot-of_get p (some x ∷ xs) (suc i) e found holds =
      ground (arith, any_slot-of_get p xs i e found holds)

  abbrev pub slots : Slab E
  slots = record {
    Store = List (Option E);
    new = [];
    get = slot;
    insert = λ s e. (s ++ some e ∷ [], length s);
    remove = vacate;
    put = fill;
    update = λ f. map (map_option f);
    any = any_slot;
    get-new = λ i. refl;
    get-fresh = λ s e. slot-end s;
    get-insert = slot-append;
    get-remove = λ s k i. slot-vacate s k i;
    get-put = slot-fill;
    get-update = slot-map;
    any-found = any_slot-found;
    any-of_get = any_slot-of_get;
  }
