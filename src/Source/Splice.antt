-- ===== src/Source/Splice.antt =====
-- plugins/source/src/edit/splice/mod.rs: replacing a byte range of a file. Texts are lists of bytes.
-- The rope of the `crop` crate, `str::trim` and the file system are parameters. Offsets stand on
-- character boundaries, as tree-sitter gives them.
pub mod Write
pub mod Newlines
use Prim.Native.String.{String}
use nyne.Prelude.{
  ℕ, ◌+◌, ◌-◌, ◌≤◌, ◌≡◌, Bool, true, false, not, ◌&&◌, ◌||◌, Option, none, some, List, [], ◌∷◌,
  ◌++◌, ltb, leb, ◌==◌, if◌then◌else◌, length, take, drop, get_elem?, slice, Range, Fits,
}

-- What the code uses of `crop::Rope`, and what its documentation says of it: `replace` and `insert`
-- edit the bytes, and the line of a byte starts at or before it.
pub record Rope : Type 1 where
  pub Text : Type 0
  pub bytes : Text → List ℕ
  pub from : List ℕ → Text
  pub replace : Text → Range → List ℕ → Text
  pub insert : Text → ℕ → List ℕ → Text
  pub line_of_byte : Text → ℕ → ℕ
  pub byte_of_line : Text → ℕ → ℕ
  pub line_len : Text → ℕ
  pub bytes-from : (xs : List ℕ) → bytes (from xs) ≡ xs
  pub bytes-replace :
      (t : Text) (r : Range) (input : List ℕ)
      → Fits (length (bytes t)) r
      → bytes (replace t r input) ≡ take r.start (bytes t) ++ (input ++ drop r.end (bytes t))
  pub bytes-insert :
      (t : Text) (at : ℕ) (input : List ℕ)
      → at ≤ length (bytes t)
      → bytes (insert t at input) ≡ take at (bytes t) ++ (input ++ drop at (bytes t))
  pub line-start :
      (t : Text) (at : ℕ) → at ≤ length (bytes t) → byte_of_line t (line_of_byte t at) ≤ at

abbrev pub newline : ℕ
newline = 10

unfoldable pub bytes_eq : List ℕ → List ℕ → Bool
bytes_eq [] [] = true
bytes_eq [] (y ∷ ys) = false
bytes_eq (x ∷ xs) [] = false
bytes_eq (x ∷ xs) (y ∷ ys) = x == y && bytes_eq xs ys

-- `content.ends_with('\n')`.
unfoldable pub ends_with_newline : List ℕ → Bool
ends_with_newline [] = false
ends_with_newline (x ∷ []) = x == newline
ends_with_newline (x ∷ y ∷ ys) = ends_with_newline (y ∷ ys)

abbrev pub starts_with_newline : List ℕ → Bool
starts_with_newline [] = false
starts_with_newline (x ∷ xs) = x == newline

abbrev pub is_newline : Option ℕ → Bool
is_newline none = false
is_newline (some c) = c == newline

abbrev pub no_bytes : List ℕ → Bool
no_bytes [] = true
no_bytes (x ∷ xs) = false

pub data SpliceError (E : Type 0) : Type 0 where
  out_of_bounds : SpliceError E
  invalid : String → SpliceError E
  io : E → SpliceError E

pub data SpliceResult (E : Type 0) : Type 0 where
  ok : ℕ → SpliceResult E
  err : SpliceError E → SpliceResult E

-- A line with its terminator, in front of the lines that follow.
abbrev pub push_front : ℕ → List (List ℕ) → List (List ℕ)
push_front c [] = (c ∷ []) ∷ []
push_front c (l ∷ ls) = (c ∷ l) ∷ ls

-- `str::split_inclusive('\n')`.
unfoldable pub split_inclusive : List ℕ → List (List ℕ)
split_inclusive [] = []
split_inclusive (c ∷ cs) =
    let rest = split_inclusive cs in if c == newline then (c ∷ []) ∷ rest else push_front c rest

-- The bytes of the leading lines that are blank; `blank l` is `l.trim().is_empty()`.
unfoldable pub blank_run : (List ℕ → Bool) → List (List ℕ) → ℕ
blank_run blank [] = 0
blank_run blank (l ∷ ls) = let rest = blank_run blank ls in if blank l then length l + rest else 0

unfoldable pub extend_delete_range : (List ℕ → Bool) → List ℕ → Range → Range
extend_delete_range blank source r = record {
  start = r.start;
  end = r.end + blank_run blank (split_inclusive (drop r.end source));
}

unfoldable pub prev_is_newline : List ℕ → ℕ → Bool
prev_is_newline source offset = ltb 0 offset && is_newline (get_elem? source (offset - 1))

unfoldable pub ensure_leading_newline : List ℕ → ℕ → List ℕ → List ℕ
ensure_leading_newline source offset content =
    if prev_is_newline source offset || starts_with_newline content
    then content
    else newline ∷ content

unfoldable pub ensure_trailing_newline : List ℕ → List ℕ
ensure_trailing_newline content =
    if ends_with_newline content then content else content ++ newline ∷ []

module _ (R : Rope) where
  open R use {Text, bytes, replace, insert, line_of_byte, byte_of_line, line_len}

  unfoldable pub line_start_of_rope : Text → ℕ → ℕ
  line_start_of_rope rope offset = byte_of_line rope (line_of_byte rope offset)

  unfoldable pub line_end_of_rope : Text → ℕ → ℕ
  line_end_of_rope rope offset =
      let line = line_of_byte rope offset in
      if ltb (line + 1) (line_len rope) then byte_of_line rope (line + 1) else length (bytes rope)

  -- The final newline of the result.
  unfoldable pub terminate : Text → Text
  terminate t =
      if ltb 0 (length (bytes t)) && not (ends_with_newline (bytes t))
      then insert t (length (bytes t)) (newline ∷ [])
      else t

  -- `W` is the state of the file system, `none` an answer of success.
  module _ {W E : Type 0} (write_file : W → List ℕ → W × Option E)
      (validate : List ℕ → Option String) where
    abbrev pub answer : Option E → ℕ → SpliceResult E
    answer none n = ok n
    answer (some e) n = err (io e)

    unfoldable pub commit : W → Text → ℕ → W × Text × SpliceResult E
    commit w spliced n =
        let (w', failed) = write_file w (bytes spliced) in (w', spliced, answer failed n)

    unfoldable pub check_and_write : W → Text → Text → ℕ → W × Text × SpliceResult E
    check_and_write w pre_splice spliced n = elim (validate (bytes spliced)) [
      | none ↦ commit w spliced n
      | some e ↦ elim (validate (bytes pre_splice)) [
        | none ↦ (w, spliced, err (invalid e))
        | some old ↦ commit w spliced n
      ]
    ]

    unfoldable pub splice_rope_validate_write :
        W → Text → Range → List ℕ → W × Text × SpliceResult E
    splice_rope_validate_write w rope r new_content =
        let source = bytes rope in
        if ltb (length source) r.start || ltb (length source) r.end
        then (w, rope, err out_of_bounds)
        else if (no_bytes source || ends_with_newline source)
            && bytes_eq (slice source r.start r.end) new_content
        then (w, rope, ok (length new_content))
        else check_and_write w rope (terminate (replace rope r new_content)) (length new_content)
