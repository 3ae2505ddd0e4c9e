-- ===== src/Source/Splice/Write.antt =====
-- What `splice_rope_validate_write` of plugins/source/src/edit/splice/mod.rs writes, and when.
use Prim.Native.String.{String}
use native.Mathlib.Nat.{le_refl}
use nyne.Prelude.{
  ℕ, ◌≤◌, ◌<◌, ◌≡◌, ◌≢◌, refl, ◌∙◌, Bool, true, ◌&&◌, ◌||◌, Option, none, some, List, [], ◌∷◌, ◌++◌,
  arith, ltb, if◌then◌else◌, length, take, drop, slice, Range, Fits, Bool-cases, lt→ltb, suc, inl,
  inr, ◌⊎◌, take_all, drop_all, le→ltb-false,
}
use nyne.Source.Splice.{
  Rope, newline, bytes_eq, ends_with_newline, no_bytes, SpliceError, out_of_bounds, io, ok, err,
  terminate, commit, check_and_write, splice_rope_validate_write,
}

pub bytes_eq→eq : (xs ys : List ℕ) → bytes_eq xs ys ≡ true → xs ≡ ys
unfolding bytes_eq
bytes_eq→eq [] [] h = refl
bytes_eq→eq [] (y ∷ ys) h = cc
bytes_eq→eq (x ∷ xs) [] h = cc
bytes_eq→eq (x ∷ xs) (y ∷ ys) h = ground (arith, bytes_eq→eq xs ys)

pub bytes_eq_refl : (xs : List ℕ) → bytes_eq xs xs ≡ true
unfolding bytes_eq
bytes_eq_refl [] = refl
bytes_eq_refl (x ∷ xs) = ground (arith, bytes_eq_refl xs)

-- The bytes with a final newline, if they do not end in one already.
abbrev pub terminated : List ℕ → List ℕ
terminated xs = if no_bytes xs || ends_with_newline xs then xs else xs ++ newline ∷ []

pub ends-append : (xs : List ℕ) → ends_with_newline (xs ++ newline ∷ []) ≡ true
unfolding ends_with_newline
ends-append [] = refl
ends-append (x ∷ []) = refl
ends-append (x ∷ y ∷ ys) = ends-append (y ∷ ys)

-- Terminated bytes are none, or end in a newline.
pub terminated-ends :
    (xs : List ℕ) → (terminated xs ≡ []) ⊎ (ends_with_newline (terminated xs) ≡ true)
terminated-ends [] = inl refl
terminated-ends (x ∷ xs) = elim (Bool-cases (ends_with_newline (x ∷ xs))) [
  | inl ends ↦ inr (rw (ends, ends))
  | inr open_end ↦ inr (rw open_end (ends-append (x ∷ xs)))
]

and-right : (a b : Bool) → (a && b) ≡ true → b ≡ true
and-right a b h = ground arith

module _ (R : Rope) where
  open R use {Text, bytes, replace, insert, bytes-insert, bytes-replace}

  terminate_bytes : (t : Text) (xs : List ℕ) → bytes t ≡ xs → bytes (terminate R t) ≡ terminated xs
  unfolding terminate
  terminate_bytes t [] same = rw same same
  terminate_bytes t (x ∷ xs) same = elim (Bool-cases (ends_with_newline (x ∷ xs))) [
    | inl ends ↦ rw (same, ends, lt→ltb 0 (suc (length xs)) (omega arith)) same
    | inr open_end ↦
        rw (same, open_end, lt→ltb 0 (suc (length xs)) (omega arith))
          (bytes-insert t (suc (length xs)) (newline ∷ []) (rw same (le_refl _))
            ∙ rw (same, take_all (length xs) xs (le_refl _), drop_all (length xs) xs (le_refl _)))
  ]

  -- The bytes after the splice.
  abbrev pub spliced : List ℕ → Range → List ℕ → List ℕ
  spliced source r new_content =
      terminated (take r.start source ++ (new_content ++ drop r.end source))

  module _ {W E : Type 0} (write_file : W → List ℕ → W × Option E)
      (validate : List ℕ → Option String) where
    -- A write of `b` that succeeded.
    abbrev pub Wrote : W → List ℕ → W → Type 0
    Wrote w b w' = (w' ≡ (write_file w b).0) × ((write_file w b).1 ≡ none)

    check_and_write-ok :
        (w : W) (pre t : Text) (n m : ℕ)
        → let (w', rope, result) = check_and_write R write_file validate w pre t n in
          result ≡ ok m
          → Wrote w (bytes t) w'
            × ((validate (bytes t) ≡ none) ⊎ (validate (bytes pre) ≢ none))
            × (m ≡ n)
    unfolding check_and_write commit
    check_and_write-ok w pre t n m h = ground arith

    check_and_write-err :
        (w : W) (pre t : Text) (n : ℕ) (e : SpliceError E)
        → let (w', rope, result) = check_and_write R write_file validate w pre t n in
          result ≡ err e
          → ((w' ≡ w) × (validate (bytes t) ≢ none) × (validate (bytes pre) ≡ none))
            ⊎ ((x : E) × (e ≡ io x) × ((write_file w (bytes t)).1 ≡ some x))
    unfolding check_and_write commit
    check_and_write-err w pre t n e h = ground arith

    module _ (w : W) (rope : Text) (r : Range) (new_content : List ℕ) where
      splice-in_bounds :
          Fits (length (bytes rope)) r
          → splice_rope_validate_write R write_file validate w rope r new_content ≡ (
              if (no_bytes (bytes rope) || ends_with_newline (bytes rope))
                && bytes_eq (slice (bytes rope) r.start r.end) new_content
              then (w, rope, ok (length new_content))
              else check_and_write R write_file validate w rope
                  (terminate R (replace rope r new_content))
                  (length new_content))
      unfolding splice_rope_validate_write
      splice-in_bounds fits = rw (
        le→ltb-false (length (bytes rope)) r.start (omega arith),
        le→ltb-false (length (bytes rope)) r.end (omega arith),
      )

      result_bytes :
          Fits (length (bytes rope)) r
          → bytes (terminate R (replace rope r new_content)) ≡ spliced (bytes rope) r new_content
      result_bytes fits = terminate_bytes _ _ (bytes-replace rope r new_content fits)

      abbrev noop : Bool
      noop =
          (no_bytes (bytes rope) || ends_with_newline (bytes rope))
          && bytes_eq (slice (bytes rope) r.start r.end) new_content

      -- A splice that reports success either found the bytes of the range to be the new ones already, and
      -- wrote nothing, or wrote the spliced bytes, terminated, which are valid unless the old bytes were not.
      pub splice-ok :
          (m : ℕ)
          → Fits (length (bytes rope)) r
          → (splice_rope_validate_write R write_file validate w rope r new_content).2 ≡ ok m
          → let w' = (splice_rope_validate_write R write_file validate w rope r new_content).0 in
            let after = spliced (bytes rope) r new_content in
            (m ≡ length new_content)
            × (((w' ≡ w) × (slice (bytes rope) r.start r.end ≡ new_content))
                ⊎ (Wrote w after w' × ((validate after ≡ none) ⊎ (validate (bytes rope) ≢ none))))
      splice-ok m fits = elim (Bool-cases noop) [
        | inl same ↦
            rw (splice-in_bounds fits, same)
              (λ h. (
                cc,
                inl (
                  refl,
                  bytes_eq→eq _ _
                      (and-right (no_bytes (bytes rope) || ends_with_newline (bytes rope)) _ same),
                ),
              ))
        | inr differs ↦
            rw (splice-in_bounds fits, differs)
              (λ h.
                let done =
                  check_and_write-ok w rope (terminate R (replace rope r new_content))
                    (length new_content) m h in
                (done.2, inr (rw (← result_bytes fits) (done.0, done.1))))
      ]

      abbrev outside : Bool
      outside = ltb (length (bytes rope)) r.start || ltb (length (bytes rope)) r.end

      splice-outside :
          outside ≡ true
          → splice_rope_validate_write R write_file validate w rope r new_content
            ≡ (w, rope, err out_of_bounds)
      unfolding splice_rope_validate_write
      splice-outside beyond = rw beyond

      -- A splice over an ordered range that reports an error has written nothing, unless the error is the
      -- file system's. It refuses a range out of bounds, and a result that does not parse in place of
      -- bytes that do.
      pub splice-err :
          (e : SpliceError E)
          → r.start ≤ r.end
          → (splice_rope_validate_write R write_file validate w rope r new_content).2 ≡ err e
          → let w' = (splice_rope_validate_write R write_file validate w rope r new_content).0 in
            let after = spliced (bytes rope) r new_content in
            ((w' ≡ w) × (length (bytes rope) < r.end))
            ⊎ ((w' ≡ w) × (validate after ≢ none) × (validate (bytes rope) ≡ none))
            ⊎ ((x : E) × (e ≡ io x) × ((write_file w after).1 ≡ some x))
      splice-err e ordered = elim (Bool-cases outside) [
        | inl beyond ↦ rw (splice-outside beyond) (λ h. inl (refl, ground arith))
        | inr inside ↦
            let fits : Fits (length (bytes rope)) r = record {
              ordered = ordered;
              within = ground arith;
            } in
            elim (Bool-cases noop) [
              | inl same ↦ rw (splice-in_bounds fits, same) (λ h. cc)
              | inr differs ↦
                  rw (splice-in_bounds fits, differs)
                    (λ h. inr (
                      rw (← result_bytes fits)
                        (check_and_write-err w rope _ (length new_content) e h)))
            ]
      ]
