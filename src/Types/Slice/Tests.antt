-- ===== src/Types/Slice/Tests.antt =====
-- Runs of the theorems on slice suffixes at `a:2-3`.
use nyne.Prelude.{ℕ, ◌≡◌, [], ◌∷◌, arith}
use nyne.Types.Slice.{range, apply}
use nyne.Types.Slice.Select.{apply-selected}

apply-selected_example : apply {A = ℕ} (range 2 3) (5 ∷ 6 ∷ 7 ∷ 8 ∷ []) ≡ 6 ∷ 7 ∷ []
apply-selected_example =
    apply-selected (range 2 3) (5 ∷ 6 ∷ 7 ∷ 8 ∷ []) (omega arith, omega arith, omega arith)
      (omega arith)
