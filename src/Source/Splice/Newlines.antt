-- ===== src/Source/Splice/Newlines.antt =====
-- The newline and blank-line helpers of plugins/source/src/edit/splice/mod.rs.
use nyne.Prelude.{
  ℕ, ◌+◌, ◌-◌, ◌≤◌, ◌<◌, ◌≡◌, refl, ◌∙◌, sym, ap, Bool, true, false, Option, none, some, List, [],
  ◌∷◌, ◌++◌, arith, ◌==◌, length, drop, get_elem?, Range, Fits, Bool-cases, ==_iff, inl, inr, ◌⊎◌,
  length-append, length-drop, append_assoc,
}
use nyne.Source.Splice.Write.{ends-append}
use nyne.Source.Splice.{
  newline, ends_with_newline, starts_with_newline, is_newline, prev_is_newline, push_front,
  split_inclusive, blank_run, extend_delete_range, ensure_leading_newline, ensure_trailing_newline,
}

abbrev pub concat : List (List ℕ) → List ℕ
concat [] = []
concat (l ∷ ls) = l ++ concat ls

concat-push_front : (c : ℕ) (ls : List (List ℕ)) → concat (push_front c ls) ≡ c ∷ concat ls
concat-push_front c [] = refl
concat-push_front c (l ∷ ls) = refl

-- The lines with their terminators make up the text.
pub concat-split_inclusive : (xs : List ℕ) → concat (split_inclusive xs) ≡ xs
unfolding split_inclusive
concat-split_inclusive [] = refl
concat-split_inclusive (c ∷ cs) = elim (Bool-cases (c == newline)) [
  | inl ends ↦ rw ends (ap (◌∷◌ c) (concat-split_inclusive cs))
  | inr goes_on ↦
      rw goes_on (concat-push_front c (split_inclusive cs) ∙ ap (◌∷◌ c) (concat-split_inclusive cs))
]

concat-append : (xs ys : List (List ℕ)) → concat (xs ++ ys) ≡ concat xs ++ concat ys
concat-append [] ys = refl
concat-append (x ∷ xs) ys =
    ap (◌++◌ x) (concat-append xs ys) ∙ sym (append_assoc x (concat xs) (concat ys))

-- The lines that a prefix of the lines makes up fit in the text.
concat-prefix :
    (xs : List ℕ) (taken left : List (List ℕ))
    → split_inclusive xs ≡ taken ++ left
    → length (concat taken) ≤ length xs
concat-prefix xs taken left parts =
    rw
      (
        ← concat-split_inclusive xs,
        parts,
        concat-append taken left,
        length-append (concat taken) (concat left),
      )
      (omega arith)

-- The leading blank lines, and the rest.
abbrev pub AllBlank : (List ℕ → Bool) → List (List ℕ) → Type 0
AllBlank blank [] = Unit {0}
AllBlank blank (l ∷ ls) = (blank l ≡ true) × AllBlank blank ls

abbrev pub StartsSolid : (List ℕ → Bool) → List (List ℕ) → Type 0
StartsSolid blank [] = Unit {0}
StartsSolid blank (l ∷ ls) = blank l ≡ false

module _ (blank : List ℕ → Bool) where
  -- `blank_run` counts the bytes of the longest run of blank lines at the front.
  pub blank_run_lem :
      (ls : List (List ℕ))
      → (taken : List (List ℕ)) × (left : List (List ℕ)) × (ls ≡ taken ++ left)
        × AllBlank blank taken
        × StartsSolid blank left
        × (blank_run blank ls ≡ length (concat taken))
  unfolding blank_run
  blank_run_lem [] = ([], [], refl, tt, tt, refl)
  blank_run_lem (l ∷ ls) = elim (Bool-cases (blank l)) [
    | inr solid ↦ ([], l ∷ ls, refl, tt, solid, rw solid)
    | inl empty ↦
        let (taken, left, parts, all, first, count) = blank_run_lem ls in
        (
          l ∷ taken,
          left,
          ap (◌∷◌ l) parts,
          (empty, all),
          first,
          rw empty (omega (arith, length-append l (concat taken))),
        )
  ]

  -- The range of a deletion keeps its start and grows over whole blank lines, all that follow it, and
  -- not past the end of the source.
  pub extend_delete_range_lem :
      (source : List ℕ) (r : Range)
      → Fits (length source) r
      → let r' = extend_delete_range blank source r in
        (r'.start ≡ r.start)
        × Fits (length source) r'
        × ((taken : List (List ℕ)) × (left : List (List ℕ)) × (split_inclusive (drop r.end source)
              ≡ taken ++ left)
            × AllBlank blank taken
            × StartsSolid blank left
            × (r'.end ≡ r.end + length (concat taken)))
  unfolding extend_delete_range
  extend_delete_range_lem source r fits =
      let (taken, left, parts, all, first, count) =
        blank_run_lem (split_inclusive (drop r.end source)) in
      (
        refl,
        record {
          ordered = omega (arith, fits.ordered);
          within = omega (
            arith,
            count,
            fits.within,
            length-drop r.end source,
            concat-prefix (drop r.end source) taken left parts,
          );
        },
        (taken, left, parts, all, first, omega (arith, count)),
      )

newline-at : (c : Option ℕ) → is_newline c ≡ true → c ≡ some newline
newline-at none h = cc
newline-at (some c) h = ap some ((==_iff c newline).0 h)

after_newline :
    (source : List ℕ) (offset : ℕ)
    → prev_is_newline source offset ≡ true
    → (0 < offset) × (get_elem? source (offset - 1) ≡ some newline)
unfolding prev_is_newline
after_newline source offset h =
    (ground arith, newline-at (get_elem? source (offset - 1)) (ground arith))

-- Text that is inserted at an offset starts on a line of its own: the byte before it, or its own
-- first byte, is a newline. Adding the newline twice changes nothing.
pub ensure_leading_newline_lem :
    (source : List ℕ) (offset : ℕ) (content : List ℕ)
    → let fixed = ensure_leading_newline source offset content in
      (((0 < offset) × (get_elem? source (offset - 1) ≡ some newline))
        ⊎ (starts_with_newline fixed ≡ true))
      × (ensure_leading_newline source offset fixed ≡ fixed)
unfolding ensure_leading_newline
ensure_leading_newline_lem source offset content =
    elim (Bool-cases (prev_is_newline source offset)) [
      | inl after ↦ rw after (inl (after_newline source offset after), refl)
      | inr within ↦ elim (Bool-cases (starts_with_newline content)) [
        | inl own ↦ rw (within, own, own) (inr refl, refl)
        | inr joined ↦ rw (within, joined) (inr refl, refl)
      ]
    ]

pub ensure_trailing_newline_lem :
    (content : List ℕ)
    → let fixed = ensure_trailing_newline content in
      (ends_with_newline fixed ≡ true) × (ensure_trailing_newline fixed ≡ fixed)
unfolding ensure_trailing_newline
ensure_trailing_newline_lem content = elim (Bool-cases (ends_with_newline content)) [
  | inl ends ↦ rw (ends, ends) (refl, refl)
  | inr open_end ↦ rw (open_end, ends-append content) (refl, refl)
]
