-- ===== src/Source/SpanMap/Remap.antt =====
-- What plugins/source/src/syntax/span_map/mod.rs promises of a map from `SpanMap::build`.
use nyne.Prelude.{
  ℕ, ◌+◌, ◌-◌, ◌≤◌, ◌<◌, ◌≡◌, ◌≢◌, refl, sym, ap, ap₂, ◌∙◌, true, false, some, List, [], ◌∷◌, map,
  arith, leb, ltb, ◌==◌, length, get_elem?, slice, Range, Fits, Bool-cases, inl, inr, lt→leb-false,
  leb-false→lt, ==_iff, get_elem?-slice, slice-slice,
}
use nyne.Source.Fragment.{Fragment, fragment, Fragments, nil, cons, recompute_full_span}
use nyne.Source.Fragment.Fit.{FragmentFits, FragmentsFit, compute_full_span-Fits}
use nyne.Source.SpanMap.{
  Region, SpanMap, new, clamp, build, partition_point, region_index, to_real, remap_end,
  remap_range, remap_fragment, remap_fragments,
}
use nyne.Source.SpanMap.Layout.{
  Layout, new_from-Layout, unique, Hit, locate, OnBoundaries, clamp-AllWithin, new_from-content_of,
  Copied, new_from-Copied,
}

-- What relates a map, its source and its inner text.
pub record IsMapOf (source content : List ℕ) (m : SpanMap) : Type 0 where
  pub covers : Layout m.virtual_len 0 m.regions
  pub size : m.virtual_len ≡ length content
  pub copied : (i : ℕ) (r : Region) → get_elem? m.regions i ≡ some r → Copied source content r

-- The map and the inner text that `build` makes of regions whose ends stand on character boundaries
-- agree with the source.
pub build-IsMapOf :
    (source : List ℕ) (regions : List Range)
    → OnBoundaries source regions
    → let (m, content) = build source regions in IsMapOf source content m
unfolding build new
build-IsMapOf source regions on =
    let clamped = map (clamp (length source)) regions in
    let fits = clamp-AllWithin source regions on in
    record {
      covers = new_from-Layout 0 clamped;
      size = omega (arith, new_from-content_of source 0 clamped fits);
      copied = new_from-Copied source [] 0 clamped refl fits;
    }

to_real-empty : (n v : ℕ) → to_real (record { regions = []; virtual_len = n }) v ≡ v
unfolding to_real region_index partition_point
to_real-empty n v = refl

module _ (source content : List ℕ) (m : SpanMap) (good : IsMapOf source content m) where
  hit_in :
      (rs : List Region) (v : ℕ)
      → Layout m.virtual_len 0 rs
      → v < m.virtual_len
      → Hit rs v m.virtual_len
  hit_in [] v covers h = absurd (omega (arith, covers))
  hit_in (r ∷ rs) v covers h = locate m.virtual_len 0 v r rs covers (omega arith) (omega arith)

  hit : (v : ℕ) → v < length content → Hit m.regions v m.virtual_len
  hit v h = hit_in m.regions v good.covers (omega (arith, good.size))

  region_index-hit : (v : ℕ) (at : Hit m.regions v m.virtual_len) → region_index m v ≡ some at.index
  unfolding region_index
  region_index-hit v at = rw (at.counted) refl

  to_real-hit :
      (v : ℕ) (at : Hit m.regions v m.virtual_len)
      → to_real m v ≡ at.region.real_start + (v - at.region.virtual_start)
  unfolding to_real
  to_real-hit v at = rw (to_real, region_index-hit v at, at.found) refl

  -- The text of a part of a region.
  part :
      (r : Region) (a b : ℕ)
      → Copied source content r
      → r.virtual_start ≤ a
      → a ≤ b
      → b ≤ r.virtual_start + r.len
      → slice content a b
        ≡ slice source (r.real_start + (a - r.virtual_start)) (r.real_start + (b - r.virtual_start))
  part r a b copied h k l =
      let v = r.virtual_start in
      let i = a - v in
      let j = b - v in
      let from : v + i ≡ a = omega arith in
      let to : v + j ≡ b = omega arith in
      let whole : (v + r.len) - v ≡ r.len = omega arith in
      let whole' : (r.real_start + r.len) - r.real_start ≡ r.len = omega arith in
      ap₂ (slice content) (sym from) (sym to)
      ∙ sym (slice-slice content v (v + r.len) i j (omega arith))
      ∙ ap (λ xs. slice xs i j) copied.same
      ∙ slice-slice source r.real_start (r.real_start + r.len) i j (omega arith)

  -- A byte of the inner text is the byte of the source that its offset is mapped to.
  pub to_real-byte :
      (v : ℕ)
      → v < length content
      → (to_real m v < length source) × (get_elem? content v ≡ get_elem? source (to_real m v))
  to_real-byte v h =
      let at = hit v h in
      let r = at.region in
      let copied = good.copied at.index r at.found in
      let inside : v < r.virtual_start + r.len = at.inside (omega (arith, good.size)) in
      let i = v - r.virtual_start in
      let back : r.virtual_start + i ≡ v = omega (arith, at.after) in
      rw (to_real-hit v at) (
        omega (arith, copied.in_source, inside, at.after),
        ap (get_elem? content) (sym back)
            ∙ sym (
                get_elem?-slice content r.virtual_start (r.virtual_start + r.len) i
                  (omega (arith, at.after)))
            ∙ ap (λ xs. get_elem? xs i) copied.same
            ∙ get_elem?-slice source r.real_start (r.real_start + r.len) i
                (omega (arith, at.after)),
      )

  remap_ends :
      (r : Range)
      → r.start < r.end
      → (a : Hit m.regions r.start m.virtual_len) (b : Hit m.regions (r.end - 1) m.virtual_len)
      → remap_range m r ≡ record {
        start = to_real m r.start;
        end = remap_end m (some a.index) (some b.index) (r.end - 1);
      }
  unfolding remap_range
  remap_ends r full a b =
      rw
        (
          lt→leb-false r.end r.start full,
          region_index-hit r.start a,
          region_index-hit (r.end - 1) b,
        )
        refl

  same_region :
      {v w : ℕ} (a : Hit m.regions v m.virtual_len) (b : Hit m.regions w m.virtual_len)
      → a.index ≡ b.index
      → a.region ≡ b.region
  same_region a b same =
      let both : some a.region ≡ some b.region =
        sym a.found ∙ ap (get_elem? m.regions) same ∙ b.found in
      cc

  last_inside :
      (e : ℕ)
      → 0 < e
      → e ≤ length content
      → (b : Hit m.regions (e - 1) m.virtual_len) → e ≤ b.region.virtual_start + b.region.len
  last_inside e some_end fits b = omega (arith, b.inside (omega (arith, good.size)))

  -- A range that ends in another region reaches the end of the region where it starts.
  first_passed :
      (s e : ℕ)
      → s < e
      → (a : Hit m.regions s m.virtual_len) (b : Hit m.regions (e - 1) m.virtual_len)
      → (a.index == b.index) ≡ false
      → a.region.virtual_start + a.region.len ≤ e
  first_passed s e full a b differ =
      elim (Bool-cases (ltb (e - 1) (a.region.virtual_start + a.region.len))) [
        | inl less ↦
            let (count, from) =
              unique m.virtual_len 0 (e - 1) a.index m.regions a.region good.covers a.found
                (omega (arith, a.after)) (ground arith) in
            absurd (ground (arith, count, b.counted, differ))
        | inr past ↦ ground arith
      ]

  -- The offset in the source of an offset in a region.
  abbrev moved : Region → ℕ → ℕ
  moved q v = q.real_start + (v - q.virtual_start)

  remap_same :
      (r : Range)
      → r.start < r.end
      → (a : Hit m.regions r.start m.virtual_len) (b : Hit m.regions (r.end - 1) m.virtual_len)
      → (a.index == b.index) ≡ true
      → remap_range m r ≡ record { start = moved a.region r.start; end = moved a.region r.end }
  unfolding remap_end
  remap_same r full a b same =
      remap_ends r full a b
      ∙ rw (same, to_real-hit r.start a, to_real-hit (r.end - 1) b)
          (ap (λ e. record { start = moved a.region r.start; end = e })
            (let q = same_region a b ((==_iff a.index b.index).0 same) in
              let start : a.region.virtual_start ≡ b.region.virtual_start =
                ap (λ x. x.virtual_start) q in
              let real : a.region.real_start ≡ b.region.real_start = ap (λ x. x.real_start) q in
              omega (arith, b.after)))

  remap_cross :
      (r : Range)
      → r.start < r.end
      → (a : Hit m.regions r.start m.virtual_len) (b : Hit m.regions (r.end - 1) m.virtual_len)
      → (a.index == b.index) ≡ false
      → remap_range m r ≡ record {
        start = moved a.region r.start;
        end = moved a.region (a.region.virtual_start + a.region.len);
      }
  unfolding remap_end
  remap_cross r full a b differ =
      remap_ends r full a b
      ∙ rw (differ, a.found, to_real-hit r.start a)
          (ap (λ e. record { start = moved a.region r.start; end = e }) (omega arith))

  indices_differ :
      (r : Range) (a : Hit m.regions r.start m.virtual_len)
      (b : Hit m.regions (r.end - 1) m.virtual_len)
      → (a.index == b.index) ≡ false
      → region_index m r.start ≢ region_index m (r.end - 1)
  indices_differ r a b differ h =
      let both : some a.index ≡ some b.index =
        sym (region_index-hit r.start a) ∙ h ∙ region_index-hit (r.end - 1) b in
      let same : a.index ≡ b.index = cc in ground (arith, same, differ)

  -- `r'` is in the source and holds the bytes of `r` up to `kept`, all of them if its ends are in one
  -- region.
  abbrev pub Keeps : Range → Range → Type 0
  Keeps r r' =
      Fits (length source) r'
      × ((kept : ℕ) × (r.start < kept)
          × (kept ≤ r.end)
          × (slice source r'.start r'.end ≡ slice content r.start kept)
          × (region_index m r.start ≡ region_index m (r.end - 1) → kept ≡ r.end))

  keeps :
      (r : Range) (a : Hit m.regions r.start m.virtual_len) (end : ℕ)
      → r.start < end
      → end ≤ r.end
      → end ≤ a.region.virtual_start + a.region.len
      → (region_index m r.start ≡ region_index m (r.end - 1) → end ≡ r.end)
      → Keeps r (record { start = moved a.region r.start; end = moved a.region end })
  keeps r a end some_kept within inside all =
      let copied = good.copied a.index a.region a.found in
      (
        record {
          ordered = omega (arith, a.after);
          within = omega (arith, a.after, copied.in_source);
        },
        (
          end,
          some_kept,
          within,
          sym (part a.region r.start end copied a.after (omega arith) inside),
          all,
        ),
      )

  -- What is kept of a range that is not empty: its beginning, in one region; all of it, if its ends
  -- are in one region.
  pub remap_range-Keeps :
      (r : Range) → r.start < r.end → r.end ≤ length content → Keeps r (remap_range m r)
  remap_range-Keeps r full fits =
      let last : r.end - 1 < length content = omega arith in
      let a = hit r.start (omega arith) in
      let b = hit (r.end - 1) last in
      elim (Bool-cases (a.index == b.index)) [
        | inl same ↦ rw (remap_same r full a b same) (
            keeps r a r.end full (omega arith)
              (rw (same_region a b ((==_iff a.index b.index).0 same))
                (last_inside r.end (omega arith) fits b))
              (λ h. refl))
        | inr differ ↦ rw (remap_cross r full a b differ) (
            keeps r a (a.region.virtual_start + a.region.len) (a.inside (omega (arith, good.size)))
              (first_passed r.start r.end full a b differ) (omega arith)
              (λ h. absurd (indices_differ r a b differ h)))
      ]

  mapped-le : (v : ℕ) → Hit m.regions v m.virtual_len → to_real m v ≤ length source
  mapped-le v at =
      let copied = good.copied at.index at.region at.found in
      rw (to_real-hit v at) (omega (arith, at.after, at.up_to, copied.in_source))

  -- Offsets up to the end of the inner text are mapped into the source.
  to_real-le : (v : ℕ) → v ≤ length content → to_real m v ≤ length source
  to_real-le v h = go m.regions refl good.covers
    where
      go :
          (rs : List Region)
          → m.regions ≡ rs
          → Layout m.virtual_len 0 rs
          → to_real m v ≤ length source
      go [] none_left covers =
          rw none_left (rw (to_real-empty m.virtual_len v) (omega (arith, h, covers, good.size)))
      go (r ∷ rs) some_left covers =
          let at : Hit (r ∷ rs) v m.virtual_len =
            locate m.virtual_len 0 v r rs covers (omega arith) (omega (arith, good.size)) in
          mapped-le v (rw some_left at)

  remap_range-Fits : (r : Range) → Fits (length content) r → Fits (length source) (remap_range m r)
  unfolding remap_range
  remap_range-Fits r fits = elim (Bool-cases (leb r.end r.start)) [
    | inl empty ↦
        rw (remap_range, empty)
          (record {
            ordered = omega arith;
            within = to_real-le r.start (omega (arith, fits.ordered, fits.within));
          })
    | inr full ↦ (remap_range-Keeps r (leb-false→lt r.end r.start full) fits.within).0
  ]

  mutual
    unfolding remap_fragment recompute_full_span FragmentFits

    fragment_in :
        (f : Fragment)
        → FragmentFits (length content) f
        → FragmentFits (length source) (remap_fragment m f)
    fragment_in (fragment i s cs) (own, full, below) =
        let moved = remap_range-Fits s.byte_range own in
        let later = fragments_in cs below in
        (
          moved,
          compute_full_span-Fits (length source) (remap_range m s.byte_range) (remap_fragments m cs)
              moved later,
          later,
        )

    fragments_in :
        (fs : Fragments)
        → FragmentsFit (length content) fs
        → FragmentsFit (length source) (remap_fragments m fs)
    fragments_in nil fits = tt
    fragments_in (cons f fs) (first, later) = (fragment_in f first, fragments_in fs later)

  -- A decomposition of the inner text, mapped back, lies in the source, with the spans it recomputes.
  pub remap_fragment-Fits :
      (f : Fragment)
      → FragmentFits (length content) f
      → FragmentFits (length source) (remap_fragment m f)
  remap_fragment-Fits = fragment_in
