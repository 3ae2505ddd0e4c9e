-- ===== src/Source/Fragment.antt =====
-- Fragments of a decomposed file: plugins/source/src/syntax/fragment.rs, and the walk along a path of
-- plugins/source/src/syntax/mod.rs.
pub mod Fit
pub mod Lines
use Prim.Native.String.{String}
use text.Mathlib.Text.{◌==◌}
use nyne.Prelude.{
  ℕ, ◌≤◌, ◌≡◌, Bool, true, false, Option, none, some, List, [], ◌∷◌, if◌then◌else◌, min, max, Range,
  Fits, length,
}

pub data SymbolKind : Type 0 where
  function_kind struct_kind enum_kind trait_kind const_kind static_kind type_alias impl_kind :
      SymbolKind
  macro_kind class_kind interface_kind module_kind variable_kind decorator_kind : SymbolKind

pub data FragmentKind : Type 0 where
  symbol : SymbolKind → FragmentKind
  docstring : FragmentKind
  imports : FragmentKind
  decorator : FragmentKind
  section : ℕ → FragmentKind
  code_block : Option String → FragmentKind
  preamble : FragmentKind

unfoldable pub is_structural : FragmentKind → Bool
is_structural docstring = true
is_structural imports = true
is_structural decorator = true
is_structural _ = false

pub data FragmentMetadata : Type 0 where
  document : ℕ → FragmentMetadata
  block : ℕ → FragmentMetadata

pub record FragmentSpan : Type 0 where
  pub byte_range : Range
  pub full_span : Range
  pub name_byte_offset : ℕ

-- The fields of `Fragment` beside its span and its children.
pub record FragmentInfo : Type 0 where
  pub name : String
  pub kind : FragmentKind
  pub signature : Option String
  pub visibility : Option String
  pub metadata : Option FragmentMetadata
  pub parent_name : Option String
  pub fs_name : Option String

mutual
  pub data Fragment : Type 0 where
    fragment : FragmentInfo → FragmentSpan → Fragments → Fragment

  pub data Fragments : Type 0 where
    nil : Fragments
    cons : Fragment → Fragments → Fragments

abbrev pub info : Fragment → FragmentInfo
info (fragment i s cs) = i

abbrev pub span : Fragment → FragmentSpan
span (fragment i s cs) = s

abbrev pub children : Fragment → Fragments
children (fragment i s cs) = cs

-- The least start and the greatest end of the children's own ranges.
unfoldable pub min_start : ℕ → Fragments → ℕ
min_start a nil = a
min_start a (cons f fs) = min (span f).byte_range.start (min_start a fs)

unfoldable pub max_end : ℕ → Fragments → ℕ
max_end a nil = a
max_end a (cons f fs) = max (span f).byte_range.end (max_end a fs)

unfoldable pub compute_full_span : Range → Fragments → Range
compute_full_span r fs = record { start = min_start r.start fs; end = max_end r.end fs }

-- `FragmentSpan::with_children`.
unfoldable pub with_children : Range → ℕ → Fragments → FragmentSpan
with_children r name_byte_offset fs = record {
  byte_range = r;
  full_span = compute_full_span r fs;
  name_byte_offset = name_byte_offset;
}

unfoldable pub leaf : Range → ℕ → FragmentSpan
leaf r name_byte_offset = record {
  byte_range = r;
  full_span = r;
  name_byte_offset = name_byte_offset;
}

unfoldable pub recompute_full_span : FragmentSpan → Fragments → FragmentSpan
recompute_full_span s fs = record s { full_span = compute_full_span s.byte_range fs }

unfoldable pub full_span : Fragment → Range
full_span f = (span f).full_span

-- `children.last()`.
unfoldable pub last_child : Fragments → Option Fragment
last_child nil = none
last_child (cons f nil) = some f
last_child (cons f (cons g gs)) = last_child (cons g gs)

abbrev pub named : Option String → String → Bool
named none s = false
named (some n) s = n == s

-- The first fragment with the filesystem name.
unfoldable pub find_name : Fragments → String → Option Fragment
find_name nil s = none
find_name (cons f fs) s = if named (info f).fs_name s then some f else find_name fs s

-- `find_fragment`: the walk below a fragment that has been found.
unfoldable pub find_below : Option Fragment → List String → Option Fragment
find_below none path = none
find_below (some f) [] = some f
find_below (some f) (s ∷ path) = find_below (find_name (children f) s) path

unfoldable pub find_fragment : Fragments → List String → Option Fragment
find_fragment fs [] = none
find_fragment fs (s ∷ path) = find_below (find_name fs s) path
