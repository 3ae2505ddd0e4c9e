-- ===== src/Source/Fragment/Fit.antt =====
-- Fragments whose ranges lie in the text: plugins/source/src/syntax/fragment.rs.
use Prim.Native.String.{String}
use nyne.Prelude.{
  ℕ, ◌≤◌, ◌≡◌, refl, Option, none, some, List, [], ◌∷◌, arith, Range, Fits, if_cases, inl, inr,
}
use nyne.Source.Fragment.{
  Fragment, fragment, Fragments, nil, cons, info, span, children, full_span, last_child, named,
  find_name, find_below, find_fragment, min_start, max_end, compute_full_span,
}

-- Every range of the fragments lies in a text of `n` bytes.
unfoldable mutual
  pub FragmentFits : ℕ → Fragment → Type 0
  FragmentFits n (fragment i s cs) = Fits n s.byte_range × Fits n s.full_span × FragmentsFit n cs

  pub FragmentsFit : ℕ → Fragments → Type 0
  FragmentsFit n nil = Unit {0}
  FragmentsFit n (cons f fs) = FragmentFits n f × FragmentsFit n fs

pub own_ranges :
    (n : ℕ) (f : Fragment)
    → FragmentFits n f
    → Fits n (span f).byte_range × Fits n (full_span f) × FragmentsFit n (children f)
unfolding FragmentFits full_span
own_ranges n (fragment i s cs) fits = fits

pub last_child-Fits :
    (n : ℕ) (fs : Fragments) (f : Fragment)
    → FragmentsFit n fs
    → last_child fs ≡ some f
    → FragmentFits n f
unfolding last_child FragmentsFit
last_child-Fits n nil f fits h = cc
last_child-Fits n (cons g nil) f fits h = let same : g ≡ f = cc in rw (← same) fits.0
last_child-Fits n (cons g (cons k ks)) f fits h = last_child-Fits n (cons k ks) f fits.1 h

find_name-Fits :
    (n : ℕ) (fs : Fragments) (s : String) (f : Fragment)
    → FragmentsFit n fs
    → find_name fs s ≡ some f
    → FragmentFits n f
unfolding find_name FragmentsFit
find_name-Fits n nil s f fits h = cc
find_name-Fits n (cons g gs) s f fits h =
    elim (if_cases (named (info g).fs_name s) (some g) (find_name gs s) h) [
      | inl (match, found) ↦ let same : g ≡ f = cc in rw (← same) fits.0
      | inr (other, later) ↦ find_name-Fits n gs s f fits.1 later
    ]

find_below-Fits :
    (n : ℕ) (at : Option Fragment) (path : List String) (f : Fragment)
    → ((g : Fragment) → at ≡ some g → FragmentFits n g)
    → find_below at path ≡ some f
    → FragmentFits n f
unfolding find_below
find_below-Fits n none path f fits h = cc
find_below-Fits n (some g) [] f fits h = fits f h
find_below-Fits n (some g) (s ∷ path) f fits h =
    find_below-Fits n (find_name (children g) s) path f
      (λ k found. find_name-Fits n (children g) s k (own_ranges n g (fits g refl)).2 found) h

pub find_fragment-Fits :
    (n : ℕ) (fs : Fragments) (path : List String) (f : Fragment)
    → FragmentsFit n fs
    → find_fragment fs path ≡ some f
    → FragmentFits n f
unfolding find_fragment
find_fragment-Fits n fs [] f fits h = cc
find_fragment-Fits n fs (s ∷ path) f fits h =
    find_below-Fits n (find_name fs s) path f (λ g found. find_name-Fits n fs s g fits found) h

-- The span that `compute_full_span` makes of ranges in the text lies in it, and covers them.
min_start-le : (a : ℕ) (fs : Fragments) → min_start a fs ≤ a
unfolding min_start
min_start-le a nil = omega arith
min_start-le a (cons f fs) = omega (arith, min_start-le a fs)

max_end-ge : (a : ℕ) (fs : Fragments) → a ≤ max_end a fs
unfolding max_end
max_end-ge a nil = omega arith
max_end-ge a (cons f fs) = omega (arith, max_end-ge a fs)

max_end-le : (n a : ℕ) (fs : Fragments) → a ≤ n → FragmentsFit n fs → max_end a fs ≤ n
unfolding max_end FragmentsFit
max_end-le n a nil h fits = h
max_end-le n a (cons f fs) h (first, later) =
    omega (arith, max_end-le n a fs h later, (own_ranges n f first).0.within)

pub compute_full_span-Fits :
    (n : ℕ) (r : Range) (fs : Fragments)
    → Fits n r
    → FragmentsFit n fs
    → Fits n (compute_full_span r fs)
unfolding compute_full_span
compute_full_span-Fits n r fs fit fits = record {
  ordered = omega (arith, min_start-le r.start fs, fit.ordered, max_end-ge r.end fs);
  within = max_end-le n r.end fs fit.within fits;
}
