-- ===== src/Diff.antt =====
-- The diff plugin, plugins/diff/src/provider: edits of whole files that a source computes, and their
-- application. The file system of nyne/src/router/fs is an interface on a world `W`.
pub mod Apply
pub mod Ending
pub mod Written
use Prim.Native.String.{String}
use nyne.Prelude.{ℕ, Bool, true, false, Option, none, some, List, [], ◌∷◌, ◌++◌, ◌⊎◌, inl, inr}
use mathlib.Core.Logic.{ite}

-- The operations of the trait `Filesystem` that edits use; `none` is success, `some` the error.
pub record Filesystem (W FilePath : Type 0) : Type 0 where
  pub write_file : W → FilePath → List ℕ → W × Option String
  pub rename : W → FilePath → FilePath → W × Option String
  pub remove : W → FilePath → W × Option String

pub data EditOutcome (FilePath : Type 0) : Type 0 where
  modify create delete : EditOutcome FilePath
  rename_to : FilePath → EditOutcome FilePath

pub data ValidationResult : Type 0 where
  pass skipped : ValidationResult
  fail : String → ValidationResult

-- `FileEditResult`, less the path for display.
pub record FileEditResult (FilePath : Type 0) : Type 0 where
  pub source_file : FilePath
  pub original : List ℕ
  pub modified : List ℕ
  pub outcome : EditOutcome FilePath
  pub validation : ValidationResult

-- What applying a diff answers. `uncomputed` and `hook_failed` are errors of the source.
pub data ApplyResult (E : Type 0) : Type 0 where
  applied nothing_to_apply : ApplyResult E
  uncomputed : E → ApplyResult E
  invalid : List String → ApplyResult E
  failed : String → ApplyResult E
  hook_failed : E → ApplyResult E

module _ {W FilePath : Type 0} (eq_text : Discrete (List ℕ)) (fs : Filesystem W FilePath) where
  open fs use {write_file, rename, remove}

  -- The file system's answer, with the paths affected on success.
  abbrev pub then_affect :
      List FilePath → List FilePath → W × Option String → W × List FilePath × Option String
  then_affect affected more (w, none) = (w, affected ++ more, none)
  then_affect affected more (w, some e) = (w, affected, some e)

  abbrev pub rewrite : FileEditResult FilePath → FilePath → W × Option String → W × Option String
  rewrite edit new_path (w, some e) = (w, some e)
  rewrite edit new_path (w, none) =
      ite (eq_text edit.original edit.modified) (w, none) (write_file w new_path edit.modified)

  abbrev pub apply_outcome :
      EditOutcome FilePath
      → FileEditResult FilePath
      → W
      → List FilePath
      → W × List FilePath × Option String
  apply_outcome modify edit w affected =
      ite (eq_text edit.original edit.modified) (w, affected, none)
        (then_affect affected (edit.source_file ∷ []) (write_file w edit.source_file edit.modified))
  apply_outcome create edit w affected =
      then_affect affected (edit.source_file ∷ []) (write_file w edit.source_file edit.modified)
  apply_outcome delete edit w affected =
      then_affect affected (edit.source_file ∷ []) (remove w edit.source_file)
  apply_outcome (rename_to new_path) edit w affected =
      then_affect affected (edit.source_file ∷ new_path ∷ [])
        (rewrite edit new_path (rename w edit.source_file new_path))

  unfoldable pub apply_single_edit :
      FileEditResult FilePath → W → List FilePath → W × List FilePath × Option String
  apply_single_edit edit w affected = apply_outcome edit.outcome edit w affected

  -- The loop of `apply_file_edits`, which stops at the first error.
  unfoldable pub apply_file_edits :
      List (FileEditResult FilePath) → W → List FilePath → W × List FilePath × Option String
  apply_file_edits [] w affected = (w, affected, none)
  apply_file_edits (edit ∷ edits) w affected =
      let (w', affected', answer) = apply_single_edit edit w affected in
      let rest = apply_file_edits edits w' affected' in
      elim answer [ none ↦ rest | some e ↦ (w', affected', some e) ]

abbrev pub failure : ValidationResult → List String
failure pass = []
failure skipped = []
failure (fail msg) = msg ∷ []

unfoldable pub failures : {P : Type 0} → List (FileEditResult P) → List String
failures [] = []
failures (edit ∷ edits) = failure edit.validation ++ failures edits

-- A source of edits with a state `St` of its own: what it computes from the files, and what it does
-- to its state after the edits are written, with the error of that if there is one.
pub record DiffSource (W St FilePath E : Type 0) : Type 0 where
  pub compute_edits : W → St → List (FileEditResult FilePath) ⊎ E
  pub on_applied : St → St × Option E

module _ {W St FilePath E : Type 0} (eq_text : Discrete (List ℕ)) (fs : Filesystem W FilePath)
    (source : DiffSource W St FilePath E) where
  abbrev pub after_hook : W → St × Option E → W × St × ApplyResult E
  after_hook w (st, none) = (w, st, applied)
  after_hook w (st, some e) = (w, st, hook_failed e)

  -- `apply_diff` behind the checks. `meanwhile` is what other requests do to the source's state
  -- while the edits are written.
  abbrev pub write_edits :
      (St → St) → List (FileEditResult FilePath) → W → St → W × St × ApplyResult E
  write_edits meanwhile edits w st =
      let (w', affected, answer) = apply_file_edits eq_text fs edits w [] in
      elim answer [
        | none ↦ after_hook w' (source.on_applied (meanwhile st))
        | some e ↦ (w', meanwhile st, failed e)
      ]

  abbrev pub check_edits :
      (St → St) → List (FileEditResult FilePath) → List String → W → St → W × St × ApplyResult E
  check_edits meanwhile [] messages w st = (w, meanwhile st, nothing_to_apply)
  check_edits meanwhile (e ∷ es) [] w st = write_edits meanwhile (e ∷ es) w st
  check_edits meanwhile (e ∷ es) (m ∷ ms) w st = (w, meanwhile st, invalid (m ∷ ms))

  unfoldable pub apply_diff : (St → St) → W → St → W × St × ApplyResult E
  apply_diff meanwhile w st = elim (source.compute_edits w st) [
    | inl edits ↦ check_edits meanwhile edits (failures edits) w st
    | inr e ↦ (w, meanwhile st, uncomputed e)
  ]
