-- ===== src/Prelude/Slices.antt =====
-- Byte ranges of a list: `&s[start..end]` within bounds.
use Prim.Native.Nat.{ℕ, ◌+◌, ◌-◌, ◌≤◌, ◌<◌}
use mathlib.Core.Path.{◌≡◌, ap, sym, ◌∙◌}
use mathlib.Core.List.{List, ◌++◌}
use native.Mathlib.Omega.{arith}
use nyne.Prelude.Lists.{
  length, take, drop, length-take, length-drop, take-add, take-append-drop, drop-drop, drop-take,
  take-take_le, get_elem?, get_elem?-take, get_elem?-drop,
}

module _ {ℓ} {A : Type ℓ} where
  -- The items from `start` up to `end`.
  abbrev pub slice : List A → ℕ → ℕ → List A
  slice xs start end = take (end - start) (drop start xs)

  pub length-slice :
      (xs : List A) (start end : ℕ) → end ≤ length xs → length (slice xs start end) ≡ end - start
  length-slice xs start end h =
      omega (arith, length-take (end - start) (drop start xs), length-drop start xs)

  -- Two adjoining slices.
  pub slice-append :
      (xs : List A) (a b c : ℕ) → a ≤ b → b ≤ c → slice xs a b ++ slice xs b c ≡ slice xs a c
  slice-append xs a b c h k =
      rw (← drop_split)
        (sym (take-add (b - a) (c - b) (drop a xs)) ∙ ap (λ n. take n (drop a xs)) total)
    where
      total : (b - a) + (c - b) ≡ c - a
      total = omega arith

      drop_split : drop (b - a) (drop a xs) ≡ drop b xs
      drop_split = drop-drop (b - a) a xs ∙ ap (λ n. drop n xs) (omega arith)

  pub slice-append_drop : (xs : List A) (a b : ℕ) → a ≤ b → slice xs a b ++ drop b xs ≡ drop a xs
  slice-append_drop xs a b h = rw (← drop_split) (take-append-drop (b - a) (drop a xs))
    where
      drop_split : drop (b - a) (drop a xs) ≡ drop b xs
      drop_split = drop-drop (b - a) a xs ∙ ap (λ n. drop n xs) (omega arith)

  pub get_elem?-slice :
      (xs : List A) (start end i : ℕ)
      → i < end - start
      → get_elem? (slice xs start end) i ≡ get_elem? xs (start + i)
  get_elem?-slice xs start end i h =
      get_elem?-take (end - start) i (drop start xs) h ∙ get_elem?-drop start i xs

  -- A slice of a slice.
  pub slice-slice :
      (xs : List A) (start end i j : ℕ)
      → j ≤ end - start
      → slice (slice xs start end) i j ≡ slice xs (start + i) (start + j)
  slice-slice xs start end i j h =
      ap (take (j - i)) (
        drop-take i (end - start) (drop start xs)
        ∙ ap (take ((end - start) - i)) (drop-drop i start xs))
      ∙ take-take_le (j - i) ((end - start) - i) (drop (start + i) xs) (omega arith)
      ∙ ap (λ n. take n (drop (start + i) xs)) (omega arith)

-- `Range<usize>`.
pub record Range : Type 0 where
  pub start : ℕ
  pub end : ℕ

-- `start..end` lies in a text of `n` bytes.
pub record Fits (n : ℕ) (r : Range) : Type 0 where
  pub ordered : r.start ≤ r.end
  pub within : r.end ≤ n
