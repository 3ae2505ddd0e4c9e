-- ===== src/Types/Slice.antt =====
-- nyne/src/types/slice/mod.rs: the `:M`, `:M-N` and `:-N` suffixes of file names. Strings are lists of
-- bytes.
pub mod Parse
pub mod Select
pub mod Tests
use nyne.Prelude.{
  usize_max, saturating_add, ℕ, ◌+◌, ◌-◌, ◌*◌, ◌^◌, ◌≡◌, Bool, true, false, ◌&&◌, ◌||◌, Option,
  none, some, List, [], ◌∷◌, ltb, leb, ◌==◌, if◌then◌else◌, min, length, slice, Range, map_option,
}

pub data SliceSpec : Type 0 where
  single : ℕ → SliceSpec
  range : ℕ → ℕ → SliceSpec
  tail : ℕ → SliceSpec

abbrev pub dash : ℕ
dash = 45

abbrev pub colon : ℕ
colon = 58

abbrev pub plus : ℕ
plus = 43

-- `str::parse::<usize>`, with the checked arithmetic of its loop over the digits.
unfoldable pub parse_digits : ℕ → List ℕ → Option ℕ
parse_digits acc [] = some acc
parse_digits acc (c ∷ cs) =
    let next = acc * 10 + (c - 48) in
    let rest = parse_digits next cs in
    if leb 48 c && leb c 57 && leb next usize_max then rest else none

abbrev pub digits : List ℕ → Option ℕ
digits [] = none
digits (c ∷ cs) = parse_digits 0 (c ∷ cs)

unfoldable pub parse_usize : List ℕ → Option ℕ
parse_usize [] = none
parse_usize (c ∷ cs) = if c == plus then digits cs else digits (c ∷ cs)

abbrev pub push_left : ℕ → Option (List ℕ × List ℕ) → Option (List ℕ × List ℕ)
push_left x parts = map_option (λ p. (x ∷ p.0, p.1)) parts

-- `str::split_once` and `str::rsplit_once` at a character of one byte.
unfoldable pub split_once : ℕ → List ℕ → Option (List ℕ × List ℕ)
split_once c [] = none
split_once c (x ∷ xs) =
    let later = split_once c xs in if x == c then some ([], xs) else push_left x later

unfoldable pub rsplit_once : ℕ → List ℕ → Option (List ℕ × List ℕ)
rsplit_once c [] = none
rsplit_once c (x ∷ xs) = elim (rsplit_once c xs) [
  | some later ↦ push_left x (some later)
  | none ↦ if x == c then some ([], xs) else none
]

abbrev pub positive_tail : Option ℕ → Option SliceSpec
positive_tail none = none
positive_tail (some n) = if ltb 0 n then some (tail n) else none

abbrev pub positive_single : Option ℕ → Option SliceSpec
positive_single none = none
positive_single (some m) = if ltb 0 m then some (single m) else none

abbrev pub ordered_range : Option ℕ → Option ℕ → Option SliceSpec
ordered_range none end = none
ordered_range (some start) none = none
ordered_range (some start) (some end) =
    if start == 0 || ltb end start then none else some (range start end)

unfoldable pub parse_unsigned : List ℕ → Option SliceSpec
parse_unsigned s = elim (split_once dash s) [
  | some parts ↦ ordered_range (parse_usize parts.0) (parse_usize parts.1)
  | none ↦ positive_single (parse_usize s)
]

unfoldable pub parse_spec : List ℕ → Option SliceSpec
parse_spec [] = parse_unsigned []
parse_spec (c ∷ rest) =
    if c == dash then positive_tail (parse_usize rest) else parse_unsigned (c ∷ rest)

abbrev pub with_base : List ℕ → Option SliceSpec → Option (List ℕ × SliceSpec)
with_base [] spec = none
with_base (c ∷ base) spec = map_option (λ s. (c ∷ base, s)) spec

unfoldable pub parse_slice_suffix : List ℕ → Option (List ℕ × SliceSpec)
parse_slice_suffix name = elim (rsplit_once colon name) [
  | none ↦ none
  | some parts ↦ with_base parts.0 (parse_spec parts.1)
]

-- The items from 0, the end not included. Subtraction on ℕ is `saturating_sub`.
unfoldable pub index_range : SliceSpec → ℕ → Range
index_range (single m) total =
    let idx = min (m - 1) total in record { start = idx; end = min (saturating_add idx 1) total }
index_range (range start end) total = record { start = min (start - 1) total; end = min end total }
index_range (tail n) total = record { start = total - n; end = total }

-- `SliceSpec::apply`; `items.get(range)` is `None` for a range out of order or out of bounds.
unfoldable pub apply {ℓ} : {A : Type ℓ} → SliceSpec → List A → List A
apply spec items =
    let r = index_range spec (length items) in
    if leb r.start r.end && leb r.end (length items) then slice items r.start r.end else []
