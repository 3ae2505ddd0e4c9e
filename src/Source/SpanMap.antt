-- ===== src/Source/SpanMap.antt =====
-- plugins/source/src/syntax/span_map/mod.rs: byte offsets of the inner text of a compound file (the
-- content regions laid end to end) mapped back to the file.
pub mod Layout
pub mod Remap
use nyne.Prelude.{
  ℕ, zero, suc, ◌+◌, ◌-◌, ◌≤◌, ◌≡◌, Bool, true, false, ◌&&◌, Option, none, some, List, [], ◌∷◌,
  ◌++◌, map, leb, ◌==◌, if◌then◌else◌, length, get_elem?, slice, min, Range, starts_char,
}
use nyne.Source.Fragment.{
  Fragment, fragment, Fragments, nil, cons, FragmentSpan, recompute_full_span,
}

pub record Region : Type 0 where
  pub real_start : ℕ
  pub virtual_start : ℕ
  pub len : ℕ

pub record SpanMap : Type 0 where
  pub regions : List Region
  pub virtual_len : ℕ

-- The loop of `SpanMap::new` from a cursor on. Regions of no length are left out.
unfoldable pub new_from : ℕ → List (ℕ × ℕ) → SpanMap
new_from cursor [] = record { regions = []; virtual_len = cursor }
new_from cursor ((real_start, len) ∷ rest) = elim (len == 0) [
  | true ↦ new_from cursor rest
  | false ↦
      let later = new_from (cursor + len) rest in
      record {
        regions =
            record { real_start = real_start; virtual_start = cursor; len = len } ∷ later.regions;
        virtual_len = later.virtual_len;
      }
]

unfoldable pub new : List (ℕ × ℕ) → SpanMap
new regions = new_from 0 regions

-- A region cut to the source, as a start and a length.
unfoldable pub clamp : ℕ → Range → ℕ × ℕ
clamp source_len r =
    let end = min r.end source_len in let start = min r.start end in (start, end - start)

-- `str::is_char_boundary` up to the length: no continuation byte of UTF-8 stands there.
unfoldable pub is_char_boundary : List ℕ → ℕ → Bool
is_char_boundary source i = starts_char (get_elem? source i)

-- `source.get(start..end).unwrap_or_default()`.
unfoldable pub get_or_empty : List ℕ → ℕ → ℕ → List ℕ
get_or_empty source start end =
    if leb start end
      && (leb end (length source) && (is_char_boundary source start && is_char_boundary source end))
    then slice source start end
    else []

unfoldable pub content_of : List ℕ → List (ℕ × ℕ) → List ℕ
content_of source [] = []
content_of source ((start, len) ∷ rest) =
    let later = content_of source rest in
    if len == 0 then later else get_or_empty source start (start + len) ++ later

unfoldable pub build : List ℕ → List Range → SpanMap × List ℕ
build source regions =
    let clamped = map (clamp (length source)) regions in (new clamped, content_of source clamped)

-- `partition_point` of the regions by `virtual_start <= virtual_offset`: they are in order.
unfoldable pub partition_point : ℕ → List Region → ℕ
partition_point virtual_offset [] = 0
partition_point virtual_offset (r ∷ rs) =
    let later = partition_point virtual_offset rs in
    if leb r.virtual_start virtual_offset then suc later else 0

abbrev pub checked_pred : ℕ → Option ℕ
checked_pred zero = none
checked_pred (suc n) = some n

unfoldable pub region_index : SpanMap → ℕ → Option ℕ
region_index m virtual_offset = checked_pred (partition_point virtual_offset m.regions)

abbrev pub region_at : SpanMap → Option ℕ → Option Region
region_at m none = none
region_at m (some i) = get_elem? m.regions i

unfoldable pub to_real : SpanMap → ℕ → ℕ
to_real m virtual_offset = elim (region_at m (region_index m virtual_offset)) [
  | some region ↦ region.real_start + (virtual_offset - region.virtual_start)
  | none ↦ virtual_offset
]

abbrev pub region_end : Option Region → ℕ → ℕ
region_end (some region) otherwise = region.real_start + region.len
region_end none otherwise = otherwise

-- The end of a range that is not empty, by the regions of its first and its last byte.
unfoldable pub remap_end : SpanMap → Option ℕ → Option ℕ → ℕ → ℕ
remap_end m (some si) (some ei) last =
    if si == ei
    then to_real m last + 1
    else region_end (get_elem? m.regions si) (to_real m last + 1)
remap_end m (some si) none last = to_real m last + 1
remap_end m none ei last = to_real m last + 1

unfoldable pub remap_range : SpanMap → Range → Range
remap_range m r =
    if leb r.end r.start
    then record { start = to_real m r.start; end = to_real m r.start }
    else record {
      start = to_real m r.start;
      end = remap_end m (region_index m r.start) (region_index m (r.end - 1)) (r.end - 1);
    }

module _ (m : SpanMap) where
  unfoldable mutual
    pub remap_fragment : Fragment → Fragment
    remap_fragment (fragment i s cs) =
        let below = remap_fragments cs in
        let moved : FragmentSpan = record s {
          byte_range = remap_range m s.byte_range;
          name_byte_offset = to_real m s.name_byte_offset;
        } in
        fragment i (recompute_full_span moved below) below

    pub remap_fragments : Fragments → Fragments
    remap_fragments nil = nil
    remap_fragments (cons f fs) = cons (remap_fragment f) (remap_fragments fs)
