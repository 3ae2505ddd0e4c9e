-- ===== src/Source/Plan.antt =====
-- plugins/source/src/edit/plan/mod.rs: staged edits of one file, resolved to byte ranges, sorted,
-- checked for overlaps and applied in one pass. An answer of `none` or `panicked` is a slice out of
-- range, which is a panic in the code.
pub mod Apply
pub mod Order
pub mod Resolve
use Prim.Native.Nat.{compare, Ordering}
use Prim.Native.String.{String}
use nyne.Prelude.{
  ℕ, ◌+◌, ◌≤◌, ◌≡◌, Bool, true, false, ◌&&◌, Option, none, some, List, [], ◌∷◌, ◌++◌, ltb, leb,
  ◌==◌, if◌then◌else◌, length, drop, slice, Range, map_option,
}
use nyne.Source.Fragment.{Fragment, Fragments, children, span, full_span, last_child, find_fragment}
use nyne.Source.Splice.{
  Rope, line_start_of_rope, extend_delete_range, ensure_leading_newline, ensure_trailing_newline,
}

pub data EditOpKind : Type 0 where
  replace delete insert_before insert_after append : EditOpKind

pub record EditOp : Type 0 where
  pub fragment_path : List String
  pub kind : EditOpKind
  pub content : Option (List ℕ)

pub record ResolvedEdit : Type 0 where
  pub staged_index : ℕ
  pub byte_range : Range
  pub replacement : List ℕ

abbrev pub EditPlan : Type 0
EditPlan = List (ℕ × EditOp)

abbrev pub content_or_empty : Option (List ℕ) → List ℕ
content_or_empty none = []
content_or_empty (some c) = c

-- `EditOp::content` and `EditOp::set_content`.
unfoldable pub content : EditOp → List ℕ
content op = content_or_empty op.content

unfoldable pub set_content : EditOp → List ℕ → EditOp
set_content op new_content = record op { content = map_option (λ old. new_content) op.content }

abbrev pub is_empty : Range → Bool
is_empty r = leb r.end r.start

-- `a.cmp(&b).reverse()` on Booleans.
abbrev pub cmp_bool_reversed : Bool → Bool → Ordering
cmp_bool_reversed true true = Ordering.eq
cmp_bool_reversed true false = Ordering.lt
cmp_bool_reversed false true = Ordering.gt
cmp_bool_reversed false false = Ordering.eq

unfoldable pub cmp_ascending : ResolvedEdit → ResolvedEdit → Ordering
cmp_ascending a b = elim (compare a.byte_range.start b.byte_range.start) [
  | Ordering.lt ↦ Ordering.lt
  | Ordering.eq ↦ cmp_bool_reversed (is_empty a.byte_range) (is_empty b.byte_range)
  | Ordering.gt ↦ Ordering.gt
]

abbrev pub comes_after : Ordering → Bool
comes_after Ordering.gt = true
comes_after _ = false

-- `slice::sort_by`, which is stable.
unfoldable pub insert_sorted : ResolvedEdit → List ResolvedEdit → List ResolvedEdit
insert_sorted e [] = e ∷ []
insert_sorted e (x ∷ xs) =
    let rest = insert_sorted e xs in
    if comes_after (cmp_ascending e x) then x ∷ rest else e ∷ x ∷ xs

unfoldable pub sort : List ResolvedEdit → List ResolvedEdit
sort [] = []
sort (e ∷ es) = insert_sorted e (sort es)

-- Two neighbours of the sorted edits that overlap.
unfoldable pub conflicts : ResolvedEdit → ResolvedEdit → Bool
conflicts a b =
    if is_empty a.byte_range && is_empty b.byte_range
    then false
    else ltb b.byte_range.start a.byte_range.end

-- The first pair in conflict, which the error names.
unfoldable pub check_conflicts : List ResolvedEdit → Option (ResolvedEdit × ResolvedEdit)
check_conflicts [] = none
check_conflicts (a ∷ []) = none
check_conflicts (a ∷ b ∷ es) =
    let rest = check_conflicts (b ∷ es) in if conflicts a b then some (a, b) else rest

-- The loop of `apply`, with its result so far and its cursor.
unfoldable pub apply_loop : List ℕ → List ℕ → ℕ → List ResolvedEdit → Option (List ℕ)
apply_loop source result cursor [] =
    if leb cursor (length source) then some (result ++ drop cursor source) else none
apply_loop source result cursor (e ∷ es) =
    let rest =
      apply_loop source (result ++ (slice source cursor e.byte_range.start ++ e.replacement))
        e.byte_range.end es in
    if leb cursor e.byte_range.start && leb e.byte_range.start (length source) then rest else none

unfoldable pub apply : List ℕ → List ResolvedEdit → Option (List ℕ)
apply source edits = apply_loop source [] 0 edits

-- The index of the last item `c`: `str::rfind` of a character of one byte.
unfoldable pub rfind : ℕ → List ℕ → Option ℕ
rfind c [] = none
rfind c (x ∷ xs) = elim (rfind c xs) [
  | some i ↦ some (i + 1)
  | none ↦ if x == c then some 0 else none
]

abbrev pub closing_brace : ℕ
closing_brace = 125

abbrev pub brace_offset : Range → Option ℕ → ℕ
brace_offset body none = body.end
brace_offset body (some pos) = body.start + pos

-- Behind the last child, or before the closing brace of the body.
unfoldable pub append_offset : List ℕ → Fragment → Option ℕ
append_offset source frag = elim (last_child (children frag)) [
  | some last ↦ some (full_span last).end
  | none ↦
      let body = (span frag).byte_range in
      if leb body.start body.end && leb body.end (length source)
      then some (brace_offset body (rfind closing_brace (slice source body.start body.end)))
      else none
]

pub data PlanResult (A : Type 0) : Type 0 where
  ok : A → PlanResult A
  not_found : List String → PlanResult A
  conflicting : ResolvedEdit → ResolvedEdit → PlanResult A
  panicked : PlanResult A

abbrev pub edit : ℕ → ℕ → ℕ → List ℕ → ResolvedEdit
edit index start end text = record {
  staged_index = index;
  byte_range = record { start = start; end = end };
  replacement = text;
}

module _ (R : Rope) (blank : List ℕ → Bool) where
  open R use {from}

  abbrev within : List ℕ → ℕ → ResolvedEdit → Option ResolvedEdit
  within source at e = if leb at (length source) then some e else none

  -- One arm of `resolve` per kind of operation.
  unfoldable pub resolve_op : List ℕ → Fragment → ℕ → EditOpKind → List ℕ → Option ResolvedEdit
  resolve_op source frag index replace text = within source (full_span frag).start (
      edit index (line_start_of_rope R (from source) (full_span frag).start) (full_span frag).end
        text)
  resolve_op source frag index delete text =
      let r = extend_delete_range blank source (full_span frag) in
      within source (full_span frag).end (edit index r.start r.end [])
  resolve_op source frag index insert_before text =
      let offset = line_start_of_rope R (from source) (full_span frag).start in
      within source (full_span frag).start (edit index offset offset (ensure_trailing_newline text))
  resolve_op source frag index insert_after text =
      let offset = (full_span frag).end in
      some (edit index offset offset (ensure_leading_newline source offset text))
  resolve_op source frag index append text = elim (append_offset source frag) [
    | none ↦ none
    | some offset ↦ some (edit index offset offset (ensure_leading_newline source offset text))
  ]

  -- The loop of `resolve` over the staged operations.
  unfoldable pub resolve_all : Fragments → List ℕ → EditPlan → PlanResult (List ResolvedEdit)
  resolve_all fragments source [] = ok []
  resolve_all fragments source ((index, op) ∷ ops) =
      let rest = resolve_all fragments source ops in
      elim (find_fragment fragments op.fragment_path) [
        | none ↦ not_found op.fragment_path
        | some frag ↦ elim (resolve_op source frag index op.kind (content op)) [
          | none ↦ panicked
          | some e ↦ elim rest [
            | ok es ↦ ok (e ∷ es)
            | not_found path ↦ not_found path
            | conflicting a b ↦ conflicting a b
            | panicked ↦ panicked
          ]
        ]
      ]

  unfoldable pub check : List ResolvedEdit → PlanResult (List ResolvedEdit)
  check edits = elim (check_conflicts edits) [
    | none ↦ ok edits
    | some pair ↦ conflicting pair.0 pair.1
  ]

  unfoldable pub resolve : EditPlan → Fragments → List ℕ → PlanResult (List ResolvedEdit)
  resolve ops fragments source = elim (resolve_all fragments source ops) [
    | ok edits ↦ check (sort edits)
    | not_found path ↦ not_found path
    | conflicting a b ↦ conflicting a b
    | panicked ↦ panicked
  ]

  abbrev pub applied : Option (List ℕ) → PlanResult (List ℕ)
  applied none = panicked
  applied (some text) = ok text

  -- `run`, without the validation of the result, which the caller supplies.
  unfoldable pub run : EditPlan → Fragments → List ℕ → PlanResult (List ℕ)
  run ops fragments source = elim (resolve ops fragments source) [
    | ok edits ↦ applied (apply source edits)
    | not_found path ↦ not_found path
    | conflicting a b ↦ conflicting a b
    | panicked ↦ panicked
  ]
