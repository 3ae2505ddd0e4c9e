-- ===== src/Source/Fragment/Lines.antt =====
-- Fragments by line: `line_range` of plugins/source/src/syntax/fragment.rs and `find_fragment_at_line` of
-- plugins/source/src/syntax/mod.rs. `line_of_byte` is that of the crop crate's rope, for one source.
pub mod Found
pub mod Tests
use Prim.Native.String.{String}
use nyne.Prelude.{
  ℕ, ◌+◌, Bool, true, false, not, ◌&&◌, Option, none, some, List, [], ◌∷◌, if◌then◌else◌, leb, ltb,
  Range,
}
use nyne.Source.Fragment.{Fragment, fragment, Fragments, nil, cons, info, full_span, is_structural}

module _ (line_of_byte : ℕ → ℕ) where
  unfoldable pub line_range : Fragment → Range
  line_range f = record {
    start = line_of_byte (full_span f).start;
    end = line_of_byte (full_span f).end + 1;
  }

  abbrev pub contains : Range → ℕ → Bool
  contains r line = leb r.start line && ltb line r.end

  -- A fragment that is not structural and holds the line.
  unfoldable pub holds : ℕ → Fragment → Bool
  holds line f = not (is_structural (info f).kind) && contains (line_range f) line

  -- A fragment without a name is passed through.
  abbrev pub push : Option String → Option (List String) → Option (List String)
  push none below = below
  push (some fs_name) none = some (fs_name ∷ [])
  push (some fs_name) (some path) = some (fs_name ∷ path)

  unfoldable mutual
    pub path_in : ℕ → Fragment → Option (List String)
    path_in line (fragment i s cs) = push i.fs_name (find_fragment_at_line line cs)

    pub find_fragment_at_line : ℕ → Fragments → Option (List String)
    find_fragment_at_line line nil = none
    find_fragment_at_line line (cons f fs) =
        let inside = path_in line f in
        let rest = find_fragment_at_line line fs in if holds line f then inside else rest
