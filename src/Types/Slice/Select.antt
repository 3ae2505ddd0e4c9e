-- ===== src/Types/Slice/Select.antt =====
-- What `SliceSpec::apply` of nyne/src/types/slice/mod.rs selects.
use nyne.Prelude.{
  usize_max, saturating_add, ℕ, ◌-◌, ◌≤◌, ◌<◌, ◌≡◌, refl, ap, ◌∙◌, sym, List, arith, leb, length,
  take, drop, slice, min, Fits, le→leb, take-min, take_all, drop_all, length-drop, length-take,
  drop-take, ap₂, le_total, leb→le, leb-false→lt, Bool-cases, inl, inr, take-nil,
}
use nyne.Types.Slice.{SliceSpec, single, range, tail, index_range, apply}
use nyne.Types.Slice.Parse.{IsValid}

-- The range is one of the list, whatever its length.
pub index_range-Fits :
    (spec : SliceSpec) (total : ℕ)
    → IsValid spec
    → total ≤ usize_max
    → Fits total (index_range spec total)
unfolding index_range
index_range-Fits (single m) total valid small = record {
  ordered = grind arith;
  within = grind arith;
}
index_range-Fits (range start end) total (positive, ordered, bounded) small = record {
  ordered = grind arith;
  within = grind arith;
}
index_range-Fits (tail n) total valid small = record { ordered = omega arith; within = omega arith }

module _ {ℓ} {A : Type ℓ} where
  -- The items that a spec names: those from index `start` to index `end`, counted from 1, or the last.
  abbrev pub selected : SliceSpec → List A → List A
  selected (single m) items = take 1 (drop (m - 1) items)
  selected (range start end) items = drop (start - 1) (take end items)
  selected (tail n) items = drop (length items - n) items

  apply-slice :
      (spec : SliceSpec) (items : List A)
      → Fits (length items) (index_range spec (length items))
      → let r = index_range spec (length items) in apply spec items ≡ slice items r.start r.end
  unfolding apply
  apply-slice spec items fits =
      rw
        (
          le→leb (index_range spec (length items)).start (index_range spec (length items)).end
              fits.ordered,
          le→leb (index_range spec (length items)).end (length items) fits.within,
        )
        refl

  drop-min :
      (n : ℕ) (xs ys : List A) → length xs ≤ length ys → drop (min n (length ys)) xs ≡ drop n xs
  drop-min n xs ys h = elim (le_total n (length ys)) [
    | inl le ↦ ap (λ k. drop k xs) (omega arith)
    | inr ge ↦ drop_all _ xs (omega arith) ∙ sym (drop_all n xs (omega arith))
  ]

  single-selected :
      (m : ℕ) (items : List A)
      → 0 < m
      → length items ≤ usize_max
      → let r = index_range (single m) (length items) in
        slice items r.start r.end ≡ take 1 (drop (m - 1) items)
  unfolding index_range
  single-selected m items positive small =
      let n = length items in
      let from = min (m - 1) n in
      let to = min (saturating_add from 1) n in
      elim (Bool-cases (leb m n)) [
        | inl inside ↦
            let le : m ≤ n = leb→le m n inside in
            let start : from ≡ m - 1 = omega arith in
            let size : to - from ≡ 1 = grind arith in ap₂ take size (ap (λ k. drop k items) start)
        | inr past ↦
            let lt : n < m = leb-false→lt m n past in
            ap (take (to - from)) (drop_all from items (omega arith))
            ∙ take-nil (to - from)
            ∙ sym (ap (take 1) (drop_all (m - 1) items (omega arith)))
      ]

  range-selected :
      (s e : ℕ) (items : List A)
      → let r = index_range (range s e) (length items) in
        slice items r.start r.end ≡ drop (s - 1) (take e items)
  unfolding index_range
  range-selected s e items =
      sym (drop-take (min (s - 1) (length items)) (min e (length items)) items)
      ∙ ap (drop (min (s - 1) (length items))) (take-min e items)
      ∙ drop-min (s - 1) (take e items) items (omega (arith, length-take e items))

  tail-selected :
      (n : ℕ) (items : List A)
      → let r = index_range (tail n) (length items) in
        slice items r.start r.end ≡ drop (length items - n) items
  unfolding index_range
  tail-selected n items =
      take_all (length items - (length items - n)) (drop (length items - n) items)
        (omega (arith, length-drop (length items - n) items))

  -- A valid spec selects the items it names, as many of them as there are.
  pub apply-selected :
      (spec : SliceSpec) (items : List A)
      → IsValid spec
      → length items ≤ usize_max
      → apply spec items ≡ selected spec items
  apply-selected (single m) items valid small =
      apply-slice (single m) items (index_range-Fits (single m) (length items) valid small)
      ∙ single-selected m items valid.0 small
  apply-selected (range s e) items valid small =
      apply-slice (range s e) items (index_range-Fits (range s e) (length items) valid small)
      ∙ range-selected s e items
  apply-selected (tail n) items valid small =
      apply-slice (tail n) items (index_range-Fits (tail n) (length items) valid small)
      ∙ tail-selected n items
