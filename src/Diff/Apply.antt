-- ===== src/Diff/Apply.antt =====
-- `apply_file_edits` and `apply_diff` of plugins/diff/src/provider.
use Prim.Native.String.{String}
use nyne.Prelude.{ℕ, ◌≡◌, ◌≢◌, refl, Option, none, some, List, [], ◌∷◌, ◌⊎◌, inl, inr}
use nyne.Diff.{
  Filesystem, FileEditResult, ApplyResult, after_hook, hook_failed, applied, failed,
  apply_file_edits, failures, DiffSource, check_edits, apply_diff,
}
use nyne.Diff.Ending.{Applied, Ending}

module _ {W St FilePath E : Type 0} (eq_text : Discrete (List ℕ)) (fs : Filesystem W FilePath)
    (source : DiffSource W St FilePath E) where
  -- How applying a diff can end, with the source's state before and after.
  pub data DiffEnding (w : W) (st st' : St) : W → ApplyResult E → Type 0 where
    written :
        {w' : W} (edits : List (FileEditResult FilePath))
        → source.compute_edits w st ≡ inl edits
        → failures edits ≡ []
        → Applied eq_text fs edits w w'
        → source.on_applied st ≡ (st', none)
        → DiffEnding w st st' w' applied
    unhooked :
        {w' : W} {e : E} (edits : List (FileEditResult FilePath))
        → source.compute_edits w st ≡ inl edits
        → failures edits ≡ []
        → Applied eq_text fs edits w w'
        → source.on_applied st ≡ (st', some e)
        → DiffEnding w st st' w' (hook_failed e)
    broken_off :
        {w' : W} {msg : String} (edits : List (FileEditResult FilePath))
        → source.compute_edits w st ≡ inl edits
        → failures edits ≡ []
        → Ending eq_text fs edits w w' (some msg)
        → st' ≡ st
        → DiffEnding w st st' w' (failed msg)
    refused : {r : ApplyResult E} → r ≢ applied → st' ≡ st → DiffEnding w st st' w r

  pub DiffEnding-applied :
      {w w' : W} {st st' : St} {r : ApplyResult E}
      → DiffEnding w st st' w' r
      → r ≡ applied
      → (edits : List (FileEditResult FilePath)) × (source.compute_edits w st ≡ inl edits)
        × (failures edits ≡ [])
        × Applied eq_text fs edits w w'
        × (source.on_applied st ≡ (st', none))
  DiffEnding-applied (written edits made passed run state) h = (edits, made, passed, run, state)
  DiffEnding-applied (unhooked edits made passed run state) h = cc
  DiffEnding-applied (broken_off edits made passed ending state) h = cc
  DiffEnding-applied (refused other state) h = absurd (other h)

  hook_state :
      (w : W) (h : St × Option E)
      → let (w', st', r) = after_hook eq_text fs source w h in r ≡ applied → st' ≡ h.0
  hook_state w (st, none) it = refl
  hook_state w (st, some e) it = cc

  checked-state :
      (meanwhile : St → St) (edits : List (FileEditResult FilePath)) (messages : List String)
      (w : W) (st : St)
      → (check_edits eq_text fs source meanwhile edits messages w st).2 ≡ applied
      → (check_edits eq_text fs source meanwhile edits messages w st).1
        ≡ (source.on_applied (meanwhile st)).0
  checked-state meanwhile [] messages w st h = cc
  checked-state meanwhile (e ∷ es) (m ∷ ms) w st h = cc
  checked-state meanwhile (e ∷ es) [] w st h = go (apply_file_edits eq_text fs (e ∷ es) w []) h
    where
      go :
          (r : W × List FilePath × Option String)
          → let (w', st', answer) = elim r.2 as (λ o. W × St × ApplyResult E) [
            | none ↦ after_hook eq_text fs source r.0 (source.on_applied (meanwhile st))
            | some msg ↦ (r.0, meanwhile st, failed msg)
          ] in
            answer ≡ applied → st' ≡ (source.on_applied (meanwhile st)).0
      go (w', a, none) h = hook_state w' (source.on_applied (meanwhile st)) h
      go (w', a, some msg) h = cc

  -- What the source's state is after a success, whatever other requests did to it meanwhile.
  pub apply_diff-state :
      (meanwhile : St → St) (w : W) (st : St)
      → (apply_diff eq_text fs source meanwhile w st).2 ≡ applied
      → (apply_diff eq_text fs source meanwhile w st).1 ≡ (source.on_applied (meanwhile st)).0
  unfolding apply_diff
  apply_diff-state meanwhile w st = go (source.compute_edits w st) refl
    where
      go :
          (c : List (FileEditResult FilePath) ⊎ E)
          → source.compute_edits w st ≡ c
          → (apply_diff eq_text fs source meanwhile w st).2 ≡ applied
          → (apply_diff eq_text fs source meanwhile w st).1 ≡ (source.on_applied (meanwhile st)).0
      go (inl edits) made =
          rw (apply_diff, made) (checked-state meanwhile edits (failures edits) w st)
      go (inr e) made = rw (apply_diff, made) (λ h. cc)
