-- ===== src/Source/Plan/Apply.antt =====
-- `EditPlan::apply` of plugins/source/src/edit/plan/mod.rs against the splices that it stands for.
use nyne.Prelude.{
  ℕ, ◌≤◌, ◌≡◌, refl, sym, ap, ◌∙◌, some, List, [], ◌∷◌, ◌++◌, arith, length, take, drop, slice,
  le→leb, append_assoc, length-append, length-take, drop-append_le, take-append_le, take-take_le,
  drop-take,
}
use nyne.Source.Plan.{ResolvedEdit, apply_loop, apply}

-- Edits in order, from the cursor on, in a text of `n` bytes.
abbrev pub Chain : ℕ → ℕ → List ResolvedEdit → Type 0
Chain n cursor [] = cursor ≤ n
Chain n cursor (e ∷ es) =
    (cursor ≤ e.byte_range.start)
    × (e.byte_range.start ≤ e.byte_range.end)
    × Chain n e.byte_range.end es

pub Chain-le : {n c : ℕ} (es : List ResolvedEdit) → Chain n c es → c ≤ n
Chain-le [] h = h
Chain-le (e ∷ es) (after, ordered, later) = omega (arith, Chain-le es later)

-- One edit, as a splice of the text.
abbrev pub splice : List ℕ → ResolvedEdit → List ℕ
splice text e = take e.byte_range.start text ++ (e.replacement ++ drop e.byte_range.end text)

-- The edits as splices, the last one first, so that no edit moves the range of an edit before it.
unfoldable pub splice_backwards : List ℕ → List ResolvedEdit → List ℕ
splice_backwards source [] = source
splice_backwards source (e ∷ es) = splice (splice_backwards source es) e

-- Edits behind the cursor leave the text before it.
take-splice_backwards :
    (source : List ℕ) (c : ℕ) (es : List ResolvedEdit)
    → Chain (length source) c es
    → (take c (splice_backwards source es) ≡ take c source)
      × (c ≤ length (splice_backwards source es))
unfolding splice_backwards
take-splice_backwards source c [] chain = (refl, chain)
take-splice_backwards source c (e ∷ es) (after, ordered, later) =
    let (same, inside) = take-splice_backwards source e.byte_range.end es later in
    let text = splice_backwards source es in
    let s = e.byte_range.start in
    let head : length (take s text) ≡ s = omega (arith, length-take s text) in
    let before : c ≤ length (take s text) = omega (arith, head) in
    let far : c ≤ e.byte_range.end = omega arith in
    (
      take-append_le c (take s text) _ before
          ∙ take-take_le c s text after
          ∙ sym (take-take_le c e.byte_range.end text far)
          ∙ ap (take c) same
          ∙ take-take_le c e.byte_range.end source far,
      rw (length-append (take s text) (e.replacement ++ drop e.byte_range.end text))
          (omega (arith, head)),
    )

-- The text between two edits is that of the source.
gap :
    (source : List ℕ) (c s : ℕ) (n : ℕ) (es : List ResolvedEdit)
    → s ≤ n
    → Chain (length source) n es
    → slice (splice_backwards source es) c s ≡ slice source c s
gap source c s n es within chain =
    let text = splice_backwards source es in
    let (same, inside) = take-splice_backwards source n es chain in
    sym (drop-take c s text)
    ∙ ap (drop c)
        (sym (take-take_le s n text within) ∙ ap (take s) same ∙ take-take_le s n source within)
    ∙ drop-take c s source

pub apply_loop_lem :
    (source result : List ℕ) (c : ℕ) (es : List ResolvedEdit)
    → Chain (length source) c es
    → apply_loop source result c es ≡ some (result ++ drop c (splice_backwards source es))
unfolding apply_loop splice_backwards
apply_loop_lem source result c [] inside = rw (le→leb c (length source) inside) refl
apply_loop_lem source result c (e ∷ es) (after, ordered, later) =
    let text = splice_backwards source es in
    let s = e.byte_range.start in
    let (same, inside) = take-splice_backwards source e.byte_range.end es later in
    let ahead : s ≤ length source = omega (arith, Chain-le es later) in
    let before : c ≤ length (take s text) = omega (arith, length-take s text) in
    let spliced : drop c (splice text e)
        ≡ slice source c s ++ (e.replacement ++ drop e.byte_range.end text) =
      drop-append_le c (take s text) _ before
      ∙ ap (λ xs. xs ++ (e.replacement ++ drop e.byte_range.end text))
          (drop-take c s text ∙ gap source c s e.byte_range.end es ordered later) in
    rw (le→leb c s after, le→leb s (length source) ahead)
      (apply_loop_lem source (result ++ (slice source c s ++ e.replacement)) e.byte_range.end es
          later
        ∙ ap some (
            append_assoc result (slice source c s ++ e.replacement) (drop e.byte_range.end text)
            ∙ ap (◌++◌ result) (
                append_assoc (slice source c s) e.replacement (drop e.byte_range.end text)
                ∙ sym spliced)))

-- The single pass over edits in order makes the splices, from the last edit to the first.
pub apply-splice_backwards :
    (source : List ℕ) (es : List ResolvedEdit)
    → Chain (length source) 0 es
    → apply source es ≡ some (splice_backwards source es)
unfolding apply
apply-splice_backwards source es chain = apply_loop_lem source [] 0 es chain
