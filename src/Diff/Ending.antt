-- ===== src/Diff/Ending.antt =====
-- How the loop of `apply_file_edits` ends, plugins/diff/src/provider/state.rs.
use Prim.Native.String.{String}
use nyne.Prelude.{ℕ, ◌≡◌, refl, ap, Option, none, some, List, [], ◌∷◌, ◌++◌}
use nyne.Diff.{Filesystem, FileEditResult, apply_single_edit, apply_file_edits}

module _ {W FilePath : Type 0} (eq_text : Discrete (List ℕ)) (fs : Filesystem W FilePath) where
  -- Edits that all succeed, from a world to a world.
  pub data Applied : List (FileEditResult FilePath) → W → W → Type 0 where
    none_left : {w : W} → Applied [] w w
    one_more :
        {edit : FileEditResult FilePath} {edits : List (FileEditResult FilePath)} {w w' w'' : W}
        (before after : List FilePath)
        → apply_single_edit eq_text fs edit w before ≡ (w', after, none)
        → Applied edits w' w''
        → Applied (edit ∷ edits) w w''

  -- How the application of edits from `w` can end, in a world and with an answer.
  pub data Ending (edits : List (FileEditResult FilePath)) (w : W)
      : W → Option String → Type 0 where
    all_applied : {w' : W} → Applied edits w w' → Ending edits w w' none
    stopped :
        {w' : W} {msg : String} (ahead : List (FileEditResult FilePath))
        (bad : FileEditResult FilePath) (behind : List (FileEditResult FilePath)) (between : W)
        (before after : List FilePath)
        → edits ≡ ahead ++ bad ∷ behind
        → Applied ahead w between
        → apply_single_edit eq_text fs bad between before ≡ (w', after, some msg)
        → Ending edits w w' (some msg)

  extend :
      {edit : FileEditResult FilePath} {edits : List (FileEditResult FilePath)} {w w1 w' : W}
      {answer : Option String} (before after : List FilePath)
      → apply_single_edit eq_text fs edit w before ≡ (w1, after, none)
      → Ending edits w1 w' answer
      → Ending (edit ∷ edits) w w' answer
  extend before after done (all_applied rest) = all_applied (one_more before after done rest)
  extend {edit} before after done (stopped ahead bad behind between b a parts first last) =
      stopped (edit ∷ ahead) bad behind between b a (ap (λ r. edit ∷ r) parts)
        (one_more before after done first) last

  -- The edits are applied one by one up to the first that fails; those before it stay applied.
  pub apply_file_edits-Ending :
      (edits : List (FileEditResult FilePath)) (w : W) (affected : List FilePath)
      → let (w', affected', answer) = apply_file_edits eq_text fs edits w affected in
        Ending edits w w' answer
  unfolding apply_file_edits
  apply_file_edits-Ending [] w affected = all_applied none_left
  apply_file_edits-Ending (edit ∷ edits) w affected =
      step (apply_single_edit eq_text fs edit w affected) refl (apply_file_edits-Ending edits)
    where
      step :
          (r : W × List FilePath × Option String)
          → apply_single_edit eq_text fs edit w affected ≡ r
          → ((w1 : W) (a : List FilePath)
              → let (w', a', answer) = apply_file_edits eq_text fs edits w1 a in
                Ending edits w1 w' answer)
          → let (w', a', answer) = elim r.2 as (λ o. W × List FilePath × Option String) [
            | none ↦ apply_file_edits eq_text fs edits r.0 r.1
            | some e ↦ (r.0, r.1, some e)
          ] in
            Ending (edit ∷ edits) w w' answer
      step (w1, a, none) done rest = extend affected a done (rest w1 a)
      step (w1, a, some e) done rest = stopped [] edit edits w affected a refl none_left done
