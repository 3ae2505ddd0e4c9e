-- ===== src/Source/Plan/Resolve.antt =====
-- `EditPlan::resolve` and `EditPlan::run` of plugins/source/src/edit/plan/mod.rs.
use Prim.Native.String.{String}
use nyne.Prelude.{
  ℕ, suc, ◌+◌, ◌-◌, ◌≤◌, ◌<◌, ◌≡◌, refl, ap, ◌∙◌, Bool, true, Option, none, some, List, [], ◌∷◌,
  ◌++◌, arith, length, take, slice, Range, Fits, Option-cases, inl, inr, ◌⊎◌, le→leb, length-slice,
  take-append-drop, slice-append_drop,
}
use nyne.Source.Fragment.{Fragment, Fragments, span, children, full_span, last_child, find_fragment}
use nyne.Source.Fragment.Fit.{
  FragmentFits, FragmentsFit, own_ranges, last_child-Fits, find_fragment-Fits,
}
use nyne.Source.Splice.{Rope, line_start_of_rope}
use nyne.Source.Splice.Newlines.{extend_delete_range_lem}
use nyne.Source.Plan.{
  EditOpKind, replace, delete, insert_before, insert_after, append, EditOp, ResolvedEdit, EditPlan,
  content, sort, conflicts, check_conflicts, apply, rfind, append_offset, closing_brace,
  brace_offset, edit, applied, insert_sorted, PlanResult, ok, not_found, conflicting, panicked,
  resolve_op, resolve_all, check, resolve, run,
}
use nyne.Source.Plan.Order.{AllFit, check_conflicts-sort, check_conflicts-some}
use nyne.Source.Plan.Apply.{splice_backwards, apply-splice_backwards}

rfind_cons-lt :
    (c x : ℕ) (xs : List ℕ) (i : ℕ)
    → ((j : ℕ) → rfind c xs ≡ some j → j < length xs)
    → rfind c (x ∷ xs) ≡ some i
    → i < suc (length xs)
unfolding rfind
rfind_cons-lt c x xs i later = elim (Option-cases (rfind c xs)) [
  | inl absent ↦ rw absent (λ h. ground arith)
  | inr (j, found) ↦ rw found (λ h. let next : j + 1 ≡ i = cc in omega (arith, next, later j found))
]

rfind-lt : (c : ℕ) (xs : List ℕ) (i : ℕ) → rfind c xs ≡ some i → i < length xs
unfolding rfind
rfind-lt c [] i h = cc
rfind-lt c (x ∷ xs) i h = rfind_cons-lt c x xs i (rfind-lt c xs) h

brace_offset-le :
    (n : ℕ) (body : Range) (found : Option ℕ)
    → Fits n body
    → ((i : ℕ) → found ≡ some i → i < body.end - body.start)
    → brace_offset body found ≤ n
brace_offset-le n body none fits inside = fits.within
brace_offset-le n body (some i) fits inside =
    omega (arith, fits.ordered, fits.within, inside i refl)

abbrev last_brace : List ℕ → Fragment → Option ℕ
last_brace source f =
    rfind closing_brace (slice source (span f).byte_range.start (span f).byte_range.end)

last_brace-lt :
    (source : List ℕ) (f : Fragment)
    → Fits (length source) (span f).byte_range
    → (i : ℕ) → last_brace source f ≡ some i
    → i < (span f).byte_range.end - (span f).byte_range.start
last_brace-lt source f fits i found = omega (
  arith,
  rfind-lt closing_brace _ i found,
  length-slice source (span f).byte_range.start (span f).byte_range.end fits.within,
)

append_offset-le :
    (source : List ℕ) (f : Fragment)
    → FragmentFits (length source) f
    → (offset : ℕ) × (append_offset source f ≡ some offset) × (offset ≤ length source)
unfolding append_offset
append_offset-le source f fits =
    let (own, full, below) = own_ranges (length source) f fits in
    elim (Option-cases (last_child (children f))) [
      | inr (last, found) ↦
          rw (found, append_offset)
            (
              (full_span last).end,
              refl,
              (own_ranges (length source) last
                  (last_child-Fits (length source) (children f) last below found)).1.within,
            )
      | inl childless ↦
          rw
            (
              childless,
              le→leb (span f).byte_range.start (span f).byte_range.end own.ordered,
              le→leb (span f).byte_range.end (length source) own.within,
              append_offset,
            )
            (
              brace_offset (span f).byte_range (last_brace source f),
              refl,
              brace_offset-le (length source) (span f).byte_range (last_brace source f) own
                  (last_brace-lt source f own),
            )
    ]

replaced_same :
    (source : List ℕ) (index start end : ℕ)
    → start ≤ end
    → splice_backwards source (edit index start end (slice source start end) ∷ []) ≡ source
unfolding splice_backwards
replaced_same source index start end ordered =
    ap (◌++◌ (take start source)) (slice-append_drop source start end ordered)
    ∙ take-append-drop start source

module _ (R : Rope) (blank : List ℕ → Bool) where
  open R use {from, bytes, bytes-from, line-start}

  line_start-le :
      (source : List ℕ) (at : ℕ) → at ≤ length source → line_start_of_rope R (from source) at ≤ at
  unfolding line_start_of_rope
  line_start-le source at inside = line-start (from source) at (rw (bytes-from source) inside)

  -- An operation on a fragment whose ranges lie in the source is an edit that lies in the source.
  pub resolve_op-Fits :
      (source : List ℕ) (f : Fragment) (index : ℕ) (kind : EditOpKind) (text : List ℕ)
      → FragmentFits (length source) f
      → (e : ResolvedEdit) × (resolve_op R blank source f index kind text ≡ some e)
        × Fits (length source) e.byte_range
  unfolding resolve_op
  resolve_op-Fits source f index replace text fits =
      let (own, full, below) = own_ranges (length source) f fits in
      let start : (full_span f).start ≤ length source = omega (arith, full.ordered, full.within) in
      rw (le→leb (full_span f).start (length source) start) (
        _,
        refl,
        record {
          ordered = omega (arith, full.ordered, line_start-le source (full_span f).start start);
          within = full.within;
        },
      )
  resolve_op-Fits source f index delete text fits =
      let (own, full, below) = own_ranges (length source) f fits in
      let (same, inside, lines) = extend_delete_range_lem blank source (full_span f) full in
      rw (le→leb (full_span f).end (length source) full.within) (_, refl, inside)
  resolve_op-Fits source f index insert_before text fits =
      let (own, full, below) = own_ranges (length source) f fits in
      let start : (full_span f).start ≤ length source = omega (arith, full.ordered, full.within) in
      rw (le→leb (full_span f).start (length source) start) (
        _,
        refl,
        record {
          ordered = omega arith;
          within = omega (arith, start, line_start-le source (full_span f).start start);
        },
      )
  resolve_op-Fits source f index insert_after text fits =
      let (own, full, below) = own_ranges (length source) f fits in
      (_, refl, record { ordered = omega arith; within = full.within })
  resolve_op-Fits source f index append text fits =
      let (offset, found, inside) = append_offset-le source f fits in
      rw (found, resolve_op) (_, refl, record { ordered = omega arith; within = inside })

  -- The answers that resolution can give, and what holds of each.
  abbrev Resolved : List ℕ → Fragments → EditPlan → PlanResult (List ResolvedEdit) → Type 0
  Resolved source fragments ops (ok es) = AllFit (length source) es × (length es ≡ length ops)
  Resolved source fragments ops (not_found path) = find_fragment fragments path ≡ none
  Resolved source fragments ops (conflicting a b) = ⊥
  Resolved source fragments ops panicked = ⊥

  cons_edit :
      (source : List ℕ) (fragments : Fragments) (index : ℕ) (op : EditOp) (ops : EditPlan)
      → FragmentsFit (length source) fragments
      → Resolved source fragments ops (resolve_all R blank fragments source ops)
      → Resolved source fragments
          ((index, op) ∷ ops)
          (resolve_all R blank fragments source ((index, op) ∷ ops))
  unfolding resolve_all
  cons_edit source fragments index op ops fits later =
      elim (Option-cases (find_fragment fragments op.fragment_path)) [
        | inl absent ↦ rw (absent, resolve_all) absent
        | inr (f, found) ↦
            let (e, made, inside) =
              resolve_op-Fits source f index op.kind (content op)
                (find_fragment-Fits (length source) fragments op.fragment_path f fits found) in
            rw (found, resolve_all, made)
              (joined e (resolve_all R blank fragments source ops) later inside)
      ]
    where
      joined :
          (e : ResolvedEdit) (rest : PlanResult (List ResolvedEdit))
          → Resolved source fragments ops rest
          → Fits (length source) e.byte_range
          → Resolved source fragments ((index, op) ∷ ops) (elim rest [
            | ok es ↦ ok (e ∷ es)
            | not_found path ↦ not_found path
            | conflicting a b ↦ conflicting a b
            | panicked ↦ panicked
          ])
      joined e (ok es) (all, count) inside = ((inside, all), ap suc count)
      joined e (not_found path) absent inside = absent
      joined e (conflicting a b) absent inside = elim absent [ ]
      joined e panicked absent inside = elim absent [ ]

  -- The loop of `resolve` answers with one edit in the source for each operation, or with the path of
  -- a fragment that is not there.
  pub resolve_all-Resolved :
      (source : List ℕ) (fragments : Fragments) (ops : EditPlan)
      → FragmentsFit (length source) fragments
      → Resolved source fragments ops (resolve_all R blank fragments source ops)
  unfolding resolve_all
  resolve_all-Resolved source fragments [] fits = (tt, refl)
  resolve_all-Resolved source fragments ((index, op) ∷ ops) fits =
      cons_edit source fragments index op ops fits (resolve_all-Resolved source fragments ops fits)

  -- The three ways in which a plan can end.
  abbrev pub Outcome : List ℕ → Fragments → EditPlan → PlanResult (List ℕ) → Type 0
  Outcome source fragments ops result =
      ((edits : List ResolvedEdit) × (resolve_all R blank fragments source ops ≡ ok edits)
        × (length edits ≡ length ops)
        × (result ≡ ok (splice_backwards source (sort edits))))
      ⊎ ((path : List String) × (find_fragment fragments path ≡ none) × (result ≡ not_found path))
      ⊎ ((a : ResolvedEdit) × (b : ResolvedEdit) × (conflicts a b ≡ true)
          × (result ≡ conflicting a b))

  run_edits :
      (source : List ℕ) (fragments : Fragments) (ops : EditPlan) (edits : List ResolvedEdit)
      → resolve_all R blank fragments source ops ≡ ok edits
      → AllFit (length source) edits
      → length edits ≡ length ops
      → Outcome source fragments ops (run R blank ops fragments source)
  unfolding run resolve check
  run_edits source fragments ops edits made all count =
      elim (Option-cases (check_conflicts (sort edits))) [
        | inl clear ↦ inl (
          edits,
          made,
          count,
          rw
              (
                run,
                resolve,
                made,
                check,
                clear,
                apply-splice_backwards source (sort edits)
                    (check_conflicts-sort (length source) edits all clear),
              )
              refl,
        )
        | inr (pair, found) ↦ inr (
            inr (
              pair.0,
              pair.1,
              check_conflicts-some (sort edits) pair found,
              rw (run, resolve, made, check, found) refl,
            ))
      ]

  pub run-Outcome :
      (source : List ℕ) (fragments : Fragments) (ops : EditPlan)
      → FragmentsFit (length source) fragments
      → Outcome source fragments ops (run R blank ops fragments source)
  unfolding run resolve
  run-Outcome source fragments ops fits =
      go (resolve_all R blank fragments source ops) refl
        (resolve_all-Resolved source fragments ops fits)
    where
      go :
          (r : PlanResult (List ResolvedEdit))
          → resolve_all R blank fragments source ops ≡ r
          → Resolved source fragments ops r
          → Outcome source fragments ops (run R blank ops fragments source)
      go (ok es) made (all, count) = run_edits source fragments ops es made all count
      go (not_found path) made absent = inr (inl (path, absent, rw (run, resolve, made) refl))
      go (conflicting a b) made absent = elim absent [ ]
      go panicked made absent = elim absent [ ]

  one_edit :
      (source : List ℕ) (index start end : ℕ)
      → start ≤ end
      → end ≤ length source
      → let e = edit index start end (slice source start end) in
        (elim (check R blank (sort (e ∷ []))) [
          | ok edits ↦ applied R blank (apply source edits)
          | not_found path ↦ not_found path
          | conflicting a b ↦ conflicting a b
          | panicked ↦ panicked
        ])
        ≡ ok source
  unfolding check sort insert_sorted check_conflicts
  one_edit source index start end ordered inside =
      let e = edit index start end (slice source start end) in
      rw (apply-splice_backwards source (e ∷ []) (omega arith, ordered, inside))
        (ap ok (replaced_same source index start end ordered))

  -- A symbol replaced by its own text, from the start of its first line on, leaves the source as it was.
  pub run-replace_same :
      (source : List ℕ) (fragments : Fragments) (path : List String) (f : Fragment) (index : ℕ)
      → FragmentsFit (length source) fragments
      → find_fragment fragments path ≡ some f
      → let start = line_start_of_rope R (from source) (full_span f).start in
        let op : EditOp = record {
          fragment_path = path;
          kind = replace;
          content = some (slice source start (full_span f).end);
        } in
        run R blank ((index, op) ∷ []) fragments source ≡ ok source
  unfolding run resolve resolve_all content resolve_op
  run-replace_same source fragments path f index fits found =
      let (own, full, below) =
        own_ranges (length source) f
          (find_fragment-Fits (length source) fragments path f fits found) in
      let at : (full_span f).start ≤ length source = omega (arith, full.ordered, full.within) in
      rw
        (
          run,
          resolve,
          resolve_all,
          found,
          resolve_op,
          le→leb (full_span f).start (length source) at,
        )
        (one_edit source index (line_start_of_rope R (from source) (full_span f).start)
          (full_span f).end
          (omega (arith, full.ordered, line_start-le source (full_span f).start at)) full.within)
