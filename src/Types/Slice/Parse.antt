-- ===== src/Types/Slice/Parse.antt =====
-- What the parser of nyne/src/types/slice/mod.rs accepts.
use nyne.Prelude.{
  usize_max, ℕ, ◌+◌, ◌-◌, ◌*◌, ◌≤◌, ◌<◌, ◌≡◌, ◌≢◌, refl, ap, subst, ◌∙◌, ◌&&◌, ◌||◌, Option, none,
  some, List, [], ◌∷◌, ◌++◌, arith, ltb, leb, ◌==◌, if◌then◌else◌, Option-cases, Bool-cases,
  if_cases, inl, inr, ==_iff,
}
use nyne.Types.Slice.{
  SliceSpec, single, range, tail, dash, colon, plus, parse_digits, digits, parse_usize, push_left,
  split_once, rsplit_once, positive_tail, positive_single, ordered_range, parse_unsigned,
  parse_spec, with_base, parse_slice_suffix,
}

-- A spec that names items: indices from 1, in order, each a `usize`.
abbrev pub IsValid : SliceSpec → Type 0
IsValid (single m) = (0 < m) × (m ≤ usize_max)
IsValid (range start end) = (0 < start) × (start ≤ end) × (end ≤ usize_max)
IsValid (tail n) = (0 < n) × (n ≤ usize_max)

parse_digits-le :
    (acc : ℕ) (cs : List ℕ) (n : ℕ) → acc ≤ usize_max → parse_digits acc cs ≡ some n → n ≤ usize_max
unfolding parse_digits
parse_digits-le acc [] n h found = let same : acc ≡ n = cc in omega (arith, same)
parse_digits-le acc (c ∷ cs) n h found =
    elim (if_cases (leb 48 c && leb c 57 && leb (acc * 10 + (c - 48)) usize_max)
      (parse_digits (acc * 10 + (c - 48)) cs) none found) [
        | inl (good, rest) ↦ parse_digits-le (acc * 10 + (c - 48)) cs n (ground (arith, good)) rest
        | inr (bad, refused) ↦ cc
      ]

digits-le : (cs : List ℕ) (n : ℕ) → digits cs ≡ some n → n ≤ usize_max
digits-le [] n found = cc
digits-le (c ∷ cs) n found = parse_digits-le 0 (c ∷ cs) n (omega arith) found

parse_usize-le : (s : List ℕ) (n : ℕ) → parse_usize s ≡ some n → n ≤ usize_max
unfolding parse_usize
parse_usize-le [] n found = cc
parse_usize-le (c ∷ cs) n found = elim (if_cases (c == plus) (digits cs) (digits (c ∷ cs)) found) [
  | inl (sign, rest) ↦ digits-le cs n rest
  | inr (bare, all) ↦ digits-le (c ∷ cs) n all
]

tail-IsValid :
    (o : Option ℕ) (spec : SliceSpec)
    → ((n : ℕ) → o ≡ some n → n ≤ usize_max)
    → positive_tail o ≡ some spec
    → IsValid spec
tail-IsValid none spec small h = cc
tail-IsValid (some n) spec small h = elim (if_cases (ltb 0 n) (some (tail n)) none h) [
  | inl (positive, this) ↦ let same : tail n ≡ spec = cc in rw (← same) (ground arith, small n refl)
  | inr (zero_length, refused) ↦ cc
]

single-IsValid :
    (o : Option ℕ) (spec : SliceSpec)
    → ((n : ℕ) → o ≡ some n → n ≤ usize_max)
    → positive_single o ≡ some spec
    → IsValid spec
single-IsValid none spec small h = cc
single-IsValid (some n) spec small h = elim (if_cases (ltb 0 n) (some (single n)) none h) [
  | inl (positive, this) ↦
      let same : single n ≡ spec = cc in rw (← same) (ground arith, small n refl)
  | inr (zero_index, refused) ↦ cc
]

range-IsValid :
    (a b : Option ℕ) (spec : SliceSpec)
    → ((n : ℕ) → b ≡ some n → n ≤ usize_max)
    → ordered_range a b ≡ some spec
    → IsValid spec
range-IsValid none b spec small h = cc
range-IsValid (some s) none spec small h = cc
range-IsValid (some s) (some e) spec small h =
    elim (if_cases (s == 0 || ltb e s) none (some (range s e)) h) [
      | inl (bad, refused) ↦ cc
      | inr (good, this) ↦
          let same : range s e ≡ spec = cc in rw (← same) (ground arith, ground arith, small e refl)
    ]

parse_unsigned-IsValid :
    (s : List ℕ) (spec : SliceSpec) → parse_unsigned s ≡ some spec → IsValid spec
unfolding parse_unsigned
parse_unsigned-IsValid s spec = elim (Option-cases (split_once dash s)) [
  | inl whole ↦ rw (parse_unsigned, whole) (single-IsValid (parse_usize s) spec (parse_usize-le s))
  | inr (parts, found) ↦
      rw (parse_unsigned, found)
        (range-IsValid (parse_usize parts.0) (parse_usize parts.1) spec (parse_usize-le parts.1))
]

-- A spec that parses names items.
pub parse_spec-IsValid : (s : List ℕ) (spec : SliceSpec) → parse_spec s ≡ some spec → IsValid spec
unfolding parse_spec
parse_spec-IsValid [] spec h = parse_unsigned-IsValid [] spec h
parse_spec-IsValid (c ∷ rest) spec h =
    elim (if_cases (c == dash) (positive_tail (parse_usize rest)) (parse_unsigned (c ∷ rest)) h) [
      | inl (minus, this) ↦ tail-IsValid (parse_usize rest) spec (parse_usize-le rest) this
      | inr (no_minus, this) ↦ parse_unsigned-IsValid (c ∷ rest) spec this
    ]

-- No item of a list is `c`.
abbrev pub Free : ℕ → List ℕ → Type 0
Free c [] = Unit {0}
Free c (x ∷ xs) = (x ≢ c) × Free c xs

-- What `rsplit_once` answers: the parts around the last `c`, or that there is none.
abbrev pub Split : ℕ → List ℕ → Option (List ℕ × List ℕ) → Type 0
Split c xs none = Free c xs
Split c xs (some parts) = (xs ≡ parts.0 ++ c ∷ parts.1) × Free c parts.1

Split-cons :
    (c x : ℕ) (xs : List ℕ) (later : Option (List ℕ × List ℕ))
    → Split c xs later
    → Split c (x ∷ xs) (elim later [
      | some parts ↦ push_left x (some parts)
      | none ↦ if x == c then some ([], xs) else none
    ])
Split-cons c x xs (some parts) (whole, free) = (ap (◌∷◌ x) whole, free)
Split-cons c x xs none free = elim (Bool-cases (x == c)) [
  | inl here ↦ rw here (ap (λ y. y ∷ xs) ((==_iff x c).0 here), free)
  | inr elsewhere ↦ rw elsewhere (ground (arith, elsewhere), free)
]

rsplit_once-Split : (c : ℕ) (xs : List ℕ) → Split c xs (rsplit_once c xs)
unfolding rsplit_once
rsplit_once-Split c [] = tt
rsplit_once-Split c (x ∷ xs) = Split-cons c x xs (rsplit_once c xs) (rsplit_once-Split c xs)

with_base-cases :
    (base : List ℕ) (spec : Option SliceSpec) (r : List ℕ × SliceSpec)
    → with_base base spec ≡ some r
    → (base ≡ r.0) × (r.0 ≢ []) × (spec ≡ some r.1)
with_base-cases [] spec r h = cc
with_base-cases (c ∷ base) none r h = cc
with_base-cases (c ∷ base) (some s) r h =
    let same : (c ∷ base, s) ≡ r = cc in rw (← same) (refl, (λ e. cc), refl)

-- A name with a suffix is a base, which is not empty, the last colon of the name, and the text of a spec
-- that names items.
pub parse_slice_suffix-some :
    (name : List ℕ) (r : List ℕ × SliceSpec)
    → parse_slice_suffix name ≡ some r
    → (text : List ℕ) × (name ≡ r.0 ++ colon ∷ text)
      × (r.0 ≢ [])
      × Free colon text
      × (parse_spec text ≡ some r.1)
      × IsValid r.1
unfolding parse_slice_suffix
parse_slice_suffix-some name r = elim (Option-cases (rsplit_once colon name)) [
  | inl whole ↦ rw (parse_slice_suffix, whole) (λ h. cc)
  | inr (parts, found) ↦
      rw (parse_slice_suffix, found)
        (λ h.
          let (same, some_base, parsed) = with_base-cases parts.0 (parse_spec parts.1) r h in
          let split : Split colon name (some parts) =
            subst (Split colon name) found (rsplit_once-Split colon name) in
          (
            parts.1,
            split.0 ∙ ap (λ b. b ++ colon ∷ parts.1) same,
            some_base,
            split.1,
            parsed,
            parse_spec-IsValid parts.1 r.1 parsed,
          ))
]
