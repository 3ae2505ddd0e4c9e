-- ===== src/Prelude/Texts.antt =====
-- Equality of texts as a decision.
use Prim.Native.Nat.{Ordering}
use Prim.Native.String.{String, compare}
use mathlib.Core.Path.{◌≡◌, refl, sym, ap, ◌∙◌}
use mathlib.Core.Bool.{Bool, true, false}
use text.Mathlib.Text.{◌==◌, is_eq}
use text.Mathlib.TextEquality.{path_by_compare}
use text.Mathlib.TextPositions.{eq_refl}

eq_of_is_eq : (o : Ordering) → is_eq o ≡ true → o ≡ Ordering.eq
eq_of_is_eq Ordering.lt h = cc
eq_of_is_eq Ordering.eq h = refl
eq_of_is_eq Ordering.gt h = cc

pub text_eq_sound : (s t : String) → (s == t) ≡ true → s ≡ t
text_eq_sound s t h = path_by_compare s t (eq_of_is_eq (compare s t) h)

differ : (s t : String) → (s == t) ≡ false → s ≡ t → ⊥
differ s t h e = let same : (s == t) ≡ true = ap (λ r. s == r) (sym e) ∙ eq_refl s in cc

decide : (s t : String) (b : Bool) → (s == t) ≡ b → Dec (s ≡ t)
decide s t true h = yes (text_eq_sound s t h)
decide s t false h = no (differ s t h)

unfoldable pub text_discrete : Discrete String
unfolding decide differ
text_discrete s t = decide s t (s == t) refl
