-- ===== src/Source/Tests.antt =====
-- Runs of the theorems on source files, with a rope that is a list of bytes.
use Prim.Native.String.{String}
use nyne.Prelude.{
  ℕ, zero, suc, ◌≤◌, ◌<◌, ◌≡◌, ◌≢◌, refl, Bool, true, false, Option, none, some, List, [], ◌∷◌,
  ◌++◌, arith, ◌==◌, if◌then◌else◌, length, take, drop, slice, Range, Fits, ◌⊎◌,
}
use nyne.Source.Fragment.{function_kind, symbol, Fragment, fragment, Fragments, nil, cons}
use nyne.Source.Splice.{
  Rope, newline, SpliceError, ok, err, io, invalid, check_and_write, terminate, commit,
  ends_with_newline, bytes_eq, splice_rope_validate_write,
}
use nyne.Source.Splice.Write.{splice-ok, splice-err}
use nyne.Source.Plan as Plan
use nyne.Source.Plan.{
  EditOp, ResolvedEdit, EditPlan, edit, sort, insert_sorted, cmp_ascending, conflicts,
  check_conflicts, apply,
}
use nyne.Source.Plan.Apply.{Chain, splice_backwards, apply-splice_backwards}
use nyne.Source.SpanMap.{
  SpanMap, new, new_from, clamp, content_of, get_or_empty, is_char_boundary, build, remap_range,
}
use nyne.Source.SpanMap.Layout.{OnBoundaries}
use nyne.Source.SpanMap.Remap.{IsMapOf, Keeps, build-IsMapOf, remap_range-Keeps}

abbrev newlines : List ℕ → ℕ
newlines [] = 0
newlines (x ∷ xs) = if x == newline then suc (newlines xs) else newlines xs

abbrev start_of_line : List ℕ → ℕ → ℕ
start_of_line xs zero = 0
start_of_line [] (suc n) = 0
start_of_line (x ∷ xs) (suc n) =
    if x == newline then suc (start_of_line xs n) else suc (start_of_line xs (suc n))

next_line-le :
    (x : ℕ) (xs : List ℕ) (at n : ℕ)
    → start_of_line xs n ≤ at
    → start_of_line (x ∷ xs) (if x == newline then suc n else n) ≤ suc at
next_line-le x xs at zero h = ground arith
next_line-le x xs at (suc n) h = ground arith

pub start_of_line-le : (xs : List ℕ) (at : ℕ) → start_of_line xs (newlines (take at xs)) ≤ at
start_of_line-le xs zero = omega arith
start_of_line-le [] (suc at) = omega arith
start_of_line-le (x ∷ xs) (suc at) =
    next_line-le x xs at (newlines (take at xs)) (start_of_line-le xs at)

abbrev pub list_rope : Rope
list_rope = record {
  Text = List ℕ;
  bytes = λ t. t;
  from = λ t. t;
  replace = λ t r input. take r.start t ++ (input ++ drop r.end t);
  insert = λ t at input. take at t ++ (input ++ drop at t);
  line_of_byte = λ t at. newlines (take at t);
  byte_of_line = start_of_line;
  line_len = λ t. suc (newlines t);
  bytes-from = λ xs. refl;
  bytes-replace = λ t r input fits. refl;
  bytes-insert = λ t at input inside. refl;
  line-start = λ t at inside. start_of_line-le t at;
}

-- A writer to one file, and a parser that refuses the byte 33.
abbrev write_file : List ℕ → List ℕ → List ℕ × Option ℕ
write_file old bytes = (bytes, none)

abbrev parser : List ℕ → Option String
parser [] = none
parser (x ∷ xs) = if x == 33 then some "invalid" else parser xs

abbrev text : List ℕ
text = 65 ∷ 66 ∷ 10 ∷ 67 ∷ 10 ∷ []

abbrev edited : List ℕ
edited = 65 ∷ 68 ∷ 10 ∷ 67 ∷ 10 ∷ []

abbrev spoiled : List ℕ
spoiled = 65 ∷ 33 ∷ 10 ∷ 67 ∷ 10 ∷ []

abbrev middle : Range
middle = record { start = 1; end = 2 }

middle-Fits : Fits 5 middle
middle-Fits = record { ordered = omega arith; within = omega arith }

accepted :
    (splice_rope_validate_write list_rope write_file parser [] text middle (68 ∷ [])).2 ≡ ok 1
unfolding splice_rope_validate_write check_and_write terminate commit ends_with_newline bytes_eq
accepted = refl

splice-ok_example :
    let w' = (splice_rope_validate_write list_rope write_file parser [] text middle (68 ∷ [])).0 in
    let after = edited in
    (1 ≡ length {A = ℕ} (68 ∷ []))
    × (((w' ≡ []) × (slice text 1 2 ≡ 68 ∷ []))
        ⊎ (((w' ≡ after) × (◌≡◌ {A = Option ℕ} none none))
            × ((parser after ≡ none) ⊎ (parser text ≢ none))))
unfolding ends_with_newline
splice-ok_example =
    splice-ok list_rope write_file parser [] text middle (68 ∷ []) 1 middle-Fits accepted

refused :
    (splice_rope_validate_write list_rope write_file parser [] text middle (33 ∷ [])).2
    ≡ err (invalid "invalid")
unfolding splice_rope_validate_write check_and_write terminate commit ends_with_newline bytes_eq
refused = refl

splice-err_example :
    let w' = (splice_rope_validate_write list_rope write_file parser [] text middle (33 ∷ [])).0 in
    let after = spoiled in
    ((w' ≡ []) × (5 < 2))
    ⊎ ((w' ≡ []) × (parser after ≢ none) × (parser text ≡ none))
    ⊎ ((x : ℕ) × (◌≡◌ {A = SpliceError ℕ} (invalid "invalid") (io x))
        × (◌≡◌ {A = Option ℕ} none (some x)))
unfolding ends_with_newline
splice-err_example =
    splice-err list_rope write_file parser [] text middle (33 ∷ []) (invalid "invalid")
      (omega arith) refused

-- A line of white space.
abbrev blank : List ℕ → Bool
blank [] = true
blank (x ∷ xs) = if x == newline then blank xs else false

-- Two edits of the text, in order.
abbrev edits : List ResolvedEdit
edits = edit 1 0 1 (88 ∷ []) ∷ edit 2 3 4 [] ∷ []

edits-Chain : Chain 5 0 edits
edits-Chain = (omega arith, omega arith, (omega arith, omega arith, omega arith))

apply-splice_backwards_example : apply text edits ≡ some (splice_backwards text edits)
apply-splice_backwards_example = apply-splice_backwards text edits edits-Chain

-- The text as two functions, of one line each.
abbrev named_fragment : String → ℕ → ℕ → Fragment
named_fragment name start end =
    fragment
      (record {
        name = name;
        kind = symbol function_kind;
        signature = none;
        visibility = none;
        metadata = none;
        parent_name = none;
        fs_name = some name;
      })
      (record {
        byte_range = record { start = start; end = end };
        full_span = record { start = start; end = end };
        name_byte_offset = start;
      })
      nil

abbrev fragments : Fragments
fragments = cons (named_fragment "f" 0 2) (cons (named_fragment "g" 3 4) nil)

abbrev plan : EditPlan
plan = (1, record { fragment_path = "g" ∷ []; kind = Plan.delete; content = none }) ∷ []

-- Two regions of a template.
abbrev regions : List Range
regions = record { start = 0; end = 2 } ∷ record { start = 3; end = 9 } ∷ []

abbrev template_map : SpanMap
template_map = record {
  regions =
      record { real_start = 0; virtual_start = 0; len = 2 }
      ∷ record { real_start = 3; virtual_start = 2; len = 2 }
      ∷ [];
  virtual_len = 4;
}

abbrev inner : List ℕ
inner = 65 ∷ 66 ∷ 67 ∷ 10 ∷ []

regions-OnBoundaries : OnBoundaries text regions
unfolding is_char_boundary
regions-OnBoundaries = (refl, refl, (refl, refl, tt))

template-IsMapOf : IsMapOf text inner template_map
unfolding build new new_from clamp content_of get_or_empty is_char_boundary
template-IsMapOf = build-IsMapOf text regions regions-OnBoundaries

build-IsMapOf_example : let (m, content) = build text regions in IsMapOf text content m
build-IsMapOf_example = build-IsMapOf text regions regions-OnBoundaries

remap_range-Keeps_example :
    Keeps text inner template_map template-IsMapOf middle (remap_range template_map middle)
remap_range-Keeps_example =
    remap_range-Keeps text inner template_map template-IsMapOf middle (omega arith) (omega arith)
