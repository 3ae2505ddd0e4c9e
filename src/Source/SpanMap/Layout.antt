-- ===== src/Source/SpanMap/Layout.antt =====
-- How the regions of a span map lie in the inner text and in the source: plugins/source/src/syntax/span_map/mod.rs.
use nyne.Prelude.{
  min, le_total, ℕ, zero, suc, ◌+◌, ◌-◌, ◌≤◌, ◌<◌, ◌≡◌, refl, ap, ◌∙◌, true, false, some, List, [],
  ◌∷◌, ◌++◌, map, arith, leb, ◌==◌, length, get_elem?, slice, Range, Bool-cases, inl, inr, le→leb,
  length-append, length-slice, append_assoc, drop-append_ge, take-append_le, take_all,
}
use nyne.Source.SpanMap.{
  Region, SpanMap, new_from, clamp, is_char_boundary, get_or_empty, content_of, partition_point,
}

-- The regions cover the inner text from an offset on, without gaps.
abbrev pub Layout : ℕ → ℕ → List Region → Type 0
Layout total c [] = c ≡ total
Layout total c (r ∷ rs) = (r.virtual_start ≡ c) × (0 < r.len) × Layout total (c + r.len) rs

skip_region :
    (c start len : ℕ) (rest : List (ℕ × ℕ))
    → (len == 0) ≡ true
    → new_from c ((start, len) ∷ rest) ≡ new_from c rest
unfolding new_from
skip_region c start len rest empty = rw (new_from, empty) refl

-- The map of the regions from a full one on.
abbrev with_region : ℕ → ℕ → ℕ → List (ℕ × ℕ) → SpanMap
with_region c start len rest = record {
  regions =
      record { real_start = start; virtual_start = c; len = len }
      ∷ (new_from (c + len) rest).regions;
  virtual_len = (new_from (c + len) rest).virtual_len;
}

keep_region :
    (c start len : ℕ) (rest : List (ℕ × ℕ))
    → (len == 0) ≡ false
    → new_from c ((start, len) ∷ rest) ≡ with_region c start len rest
unfolding new_from
keep_region c start len rest full = rw (new_from, full) refl

pub new_from-Layout :
    (c : ℕ) (cl : List (ℕ × ℕ)) → Layout (new_from c cl).virtual_len c (new_from c cl).regions
unfolding new_from
new_from-Layout c [] = refl
new_from-Layout c ((start, len) ∷ rest) = elim (Bool-cases (len == 0)) [
  | inl empty ↦ rw (skip_region c start len rest empty) (new_from-Layout c rest)
  | inr full ↦
      rw (keep_region c start len rest full) (refl, ground arith, new_from-Layout (c + len) rest)
]

Layout-le : (total c : ℕ) (rs : List Region) → Layout total c rs → c ≤ total
Layout-le total c [] end = omega (arith, end)
Layout-le total c (r ∷ rs) (at, some_len, later) =
    omega (arith, Layout-le total (c + r.len) rs later)

-- The offset lies in the region at that index.
pub record Hit (rs : List Region) (v total : ℕ) : Type 0 where
  pub index : ℕ
  pub region : Region
  pub counted : partition_point v rs ≡ suc index
  pub found : get_elem? rs index ≡ some region
  pub after : region.virtual_start ≤ v
  pub up_to : v ≤ region.virtual_start + region.len
  pub inside : v < total → v < region.virtual_start + region.len

stop : (total c v : ℕ) (rs : List Region) → Layout total c rs → v < c → partition_point v rs ≡ 0
unfolding partition_point
stop total c v [] layout h = refl
stop total c v (r ∷ rs) (at, some_len, later) h = ground arith

-- An offset up to the end of the inner text lies in a region, if there is one.
pub locate :
    (total c v : ℕ) (r : Region) (rs : List Region)
    → Layout total c (r ∷ rs)
    → c ≤ v
    → v ≤ total
    → Hit (r ∷ rs) v total
unfolding partition_point
locate total c v r [] (at, some_len, end) h k = record {
  index = 0;
  region = r;
  counted = rw (le→leb r.virtual_start v (omega arith)) refl;
  found = refl;
  after = omega arith;
  up_to = omega arith;
  inside = λ less. omega arith;
}
locate total c v r (q ∷ qs) (at, some_len, later) h k = elim (Bool-cases (leb (c + r.len) v)) [
  | inl beyond ↦
      let hit = locate total (c + r.len) v q qs later (ground arith) k in
      record {
        index = suc hit.index;
        region = hit.region;
        counted = rw (le→leb r.virtual_start v (omega arith)) (ap suc hit.counted);
        found = hit.found;
        after = hit.after;
        up_to = hit.up_to;
        inside = hit.inside;
      }
  | inr before ↦
      let less : v < c + r.len = ground arith in
      record {
        index = 0;
        region = r;
        counted =
            rw (le→leb r.virtual_start v (omega arith))
              (ap suc (stop total (c + r.len) v (q ∷ qs) later less));
        found = refl;
        after = omega arith;
        up_to = omega arith;
        inside = λ k. omega arith;
      }
]

-- An offset in a region has the index of the region, and no other.
pub unique :
    (total c v i : ℕ) (rs : List Region) (r : Region)
    → Layout total c rs
    → get_elem? rs i ≡ some r
    → r.virtual_start ≤ v
    → v < r.virtual_start + r.len
    → (partition_point v rs ≡ suc i) × (c ≤ r.virtual_start)
unfolding partition_point
unique total c v i [] r layout found h k = cc
unique total c v zero (q ∷ qs) r (at, some_len, later) found h k =
    let same : q ≡ r = cc in
    let start : q.virtual_start ≡ r.virtual_start = ap (λ x. x.virtual_start) same in
    let size : q.len ≡ r.len = ap (λ x. x.len) same in
    (
      rw (le→leb q.virtual_start v (omega arith))
          (ap suc (stop total (c + q.len) v qs later (omega arith))),
      omega arith,
    )
unique total c v (suc i) (q ∷ qs) r (at, some_len, later) found h k =
    let (count, from) = unique total (c + q.len) v i qs r later found h k in
    (rw (le→leb q.virtual_start v (omega arith)) (ap suc count), omega arith)

-- Regions that fit in the source and have their ends on character boundaries.
abbrev pub AllWithin : List ℕ → List (ℕ × ℕ) → Type 0
AllWithin source [] = Unit {0}
AllWithin source ((start, len) ∷ rest) =
    ((start + len ≤ length source)
      × (is_char_boundary source start ≡ true)
      × (is_char_boundary source (start + len) ≡ true))
    × AllWithin source rest

abbrev pub OnBoundaries : List ℕ → List Range → Type 0
OnBoundaries source [] = Unit {0}
OnBoundaries source (r ∷ rs) =
    (is_char_boundary source r.start ≡ true)
    × (is_char_boundary source r.end ≡ true)
    × OnBoundaries source rs

boundary_length : (source : List ℕ) → is_char_boundary source (length source) ≡ true
unfolding is_char_boundary
boundary_length [] = refl
boundary_length (x ∷ xs) = boundary_length xs

boundary_min :
    (source : List ℕ) (i j : ℕ)
    → is_char_boundary source i ≡ true
    → is_char_boundary source j ≡ true
    → is_char_boundary source (min i j) ≡ true
boundary_min source i j at_i at_j = elim (le_total i j) [
  | inl le ↦ let w : min i j ≡ i = omega (arith, le) in rw w at_i
  | inr ge ↦ let w : min i j ≡ j = omega (arith, ge) in rw w at_j
]

pub clamp-AllWithin :
    (source : List ℕ) (rs : List Range)
    → OnBoundaries source rs
    → AllWithin source (map (clamp (length source)) rs)
unfolding clamp
clamp-AllWithin source [] on = tt
clamp-AllWithin source (r ∷ rs) (at_start, at_end, on) =
    let end = min r.end (length source) in
    let at = boundary_min source r.end (length source) at_end (boundary_length source) in
    let whole : min r.start end + (end - min r.start end) ≡ end = omega arith in
    (
      (omega (arith, whole), boundary_min source r.start end at_start at, rw whole at),
      clamp-AllWithin source rs on,
    )

skip_content :
    (source : List ℕ) (start len : ℕ) (rest : List (ℕ × ℕ))
    → (len == 0) ≡ true
    → content_of source ((start, len) ∷ rest) ≡ content_of source rest
unfolding content_of
skip_content source start len rest empty = rw empty refl

keep_content :
    (source : List ℕ) (start len : ℕ) (rest : List (ℕ × ℕ))
    → (len == 0) ≡ false
    → start + len ≤ length source
    → is_char_boundary source start ≡ true
    → is_char_boundary source (start + len) ≡ true
    → content_of source ((start, len) ∷ rest)
      ≡ slice source start (start + len) ++ content_of source rest
unfolding content_of get_or_empty
keep_content source start len rest full fits at_start at_end =
    rw
      (
        full,
        le→leb start (start + len) (omega arith),
        le→leb (start + len) (length source) fits,
        at_start,
        at_end,
      )
      refl

length-piece :
    (source : List ℕ) (start len : ℕ)
    → start + len ≤ length source
    → length (slice source start (start + len)) ≡ len
length-piece source start len fits = omega (arith, length-slice source start (start + len) fits)

-- The inner text is as long as the map says.
pub new_from-content_of :
    (source : List ℕ) (c : ℕ) (cl : List (ℕ × ℕ))
    → AllWithin source cl
    → (new_from c cl).virtual_len ≡ c + length (content_of source cl)
unfolding new_from content_of
new_from-content_of source c [] fits = omega arith
new_from-content_of source c ((start, len) ∷ rest) ((first, at_start, at_end), later) =
    elim (Bool-cases (len == 0)) [
      | inl empty ↦
          rw (skip_region c start len rest empty, skip_content source start len rest empty)
            (new_from-content_of source c rest later)
      | inr full ↦
          rw
            (
              keep_region c start len rest full,
              keep_content source start len rest full first at_start at_end,
            )
            (omega (
              arith,
              new_from-content_of source (c + len) rest later,
              length-append (slice source start (start + len)) (content_of source rest),
              length-piece source start len first,
            ))
    ]

-- A region whose text in the inner text is its text in the source.
pub record Copied (source content : List ℕ) (r : Region) : Type 0 where
  pub in_source : r.real_start + r.len ≤ length source
  pub same :
      slice content r.virtual_start (r.virtual_start + r.len)
      ≡ slice source r.real_start (r.real_start + r.len)

slice_middle :
    (before piece later : List ℕ) (c len : ℕ)
    → length before ≡ c
    → length piece ≡ len
    → slice (before ++ (piece ++ later)) c (c + len) ≡ piece
slice_middle before piece later c len at size =
    let gone : c - length before ≡ 0 = omega arith in
    let whole : (c + len) - c ≡ len = omega arith in
    rw (drop-append_ge c before (piece ++ later) (omega arith), gone, whole)
      (take-append_le len piece later (omega arith) ∙ take_all len piece (omega arith))

pub new_from-Copied :
    (source before : List ℕ) (c : ℕ) (cl : List (ℕ × ℕ))
    → length before ≡ c
    → AllWithin source cl
    → (i : ℕ) (r : Region) → get_elem? (new_from c cl).regions i ≡ some r
    → Copied source (before ++ content_of source cl) r
unfolding new_from content_of
new_from-Copied source before c [] at fits = λ i r h. cc
new_from-Copied source before c ((start, len) ∷ rest) at ((first, at_start, at_end), later) =
    elim (Bool-cases (len == 0)) [
      | inl empty ↦
          rw (skip_region c start len rest empty, skip_content source start len rest empty)
            (new_from-Copied source before c rest at later)
      | inr full ↦
          rw
            (
              keep_region c start len rest full,
              keep_content source start len rest full first at_start at_end,
            )
            (go first (
              new_from-Copied source (before ++ slice source start (start + len)) (c + len) rest
                (omega (
                  arith,
                  length-append before (slice source start (start + len)),
                  length-piece source start len first,
                ))
                later))
    ]
  where
    go :
        start + len ≤ length source
        → ((i : ℕ) (r : Region)
            → get_elem? (new_from (c + len) rest).regions i ≡ some r
            → Copied source
                ((before ++ slice source start (start + len)) ++ content_of source rest)
                r)
        → (i : ℕ) (r : Region) → get_elem? (with_region c start len rest).regions i ≡ some r
        → Copied source (before ++ (slice source start (start + len) ++ content_of source rest)) r
    go fit deeper zero r h =
        let this : record { real_start = start; virtual_start = c; len = len } ≡ r = cc in
        rw (← this) (record {
          in_source = fit;
          same =
              slice_middle before (slice source start (start + len)) (content_of source rest) c len
                at (length-piece source start len fit);
        })
    go fit deeper (suc i) r h =
        rw (← append_assoc before (slice source start (start + len)) (content_of source rest))
          (deeper i r h)
