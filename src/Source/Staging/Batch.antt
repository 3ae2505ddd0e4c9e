-- ===== src/Source/Staging/Batch.antt =====
-- `BatchEditAction` of plugins/source/src/edit/staging/mod.rs, the diff source that turns what is staged
-- into edits of files. Decomposition is `decompose`, which gives a file's fragments and text, and
-- `decomposer_for` is the registry: the check of a text, where the file's language has one.
pub mod Outcomes
use Prim.Native.String.{String}
use nyne.Prelude.{
  ℕ, ◌≡◌, Bool, true, false, Option, none, some, List, [], ◌∷◌, if◌then◌else◌, ◌⊎◌, inl, inr,
}
use nyne.Diff.{FileEditResult, modify, ValidationResult, pass, skipped, fail, DiffSource}
use nyne.Source.Fragment.{Fragments}
use nyne.Source.Splice.{Rope}
use nyne.Source.Plan.{EditPlan, ResolvedEdit, PlanResult, ok, not_found, conflicting, panicked}
use nyne.Source.Plan as Plan
use nyne.Source.Staging.{EditStaging, scoped_snapshot, on_applied}

pub data BatchError (FilePath : Type 0) : Type 0 where
  undecomposed : FilePath → BatchError FilePath
  no_fragment : FilePath → List String → BatchError FilePath
  overlapping : FilePath → ResolvedEdit → ResolvedEdit → BatchError FilePath
  panic : FilePath → BatchError FilePath

module _ {W FilePath : Type 0} (R : Rope) (blank : List ℕ → Bool) (eq_path : Discrete FilePath)
    (le_path : FilePath → FilePath → Bool) (decompose : W → FilePath → Option (Fragments × List ℕ))
    (decomposer_for : FilePath → Option (List ℕ → Option String)) where
  abbrev pub verdict : Option String → ValidationResult
  verdict none = pass
  verdict (some e) = fail e

  abbrev pub verdict_of : Option (List ℕ → Option String) → List ℕ → ValidationResult
  verdict_of none text = skipped
  verdict_of (some check) text = verdict (check text)

  unfoldable pub validator_for : FilePath → List ℕ → ValidationResult
  validator_for file modified = verdict_of (decomposer_for file) modified

  -- `entries.sort_by` on the paths.
  unfoldable pub insert_by_path :
      FilePath × EditPlan → List (FilePath × EditPlan) → List (FilePath × EditPlan)
  insert_by_path e [] = e ∷ []
  insert_by_path e (x ∷ xs) =
      let rest = insert_by_path e xs in if le_path e.0 x.0 then e ∷ x ∷ xs else x ∷ rest

  unfoldable pub sort_by_path : List (FilePath × EditPlan) → List (FilePath × EditPlan)
  sort_by_path [] = []
  sort_by_path (e ∷ es) = insert_by_path e (sort_by_path es)

  -- `EditPlan::run` on a file, with its error or its result as a whole-file edit.
  abbrev pub file_edit :
      FilePath → List ℕ → PlanResult (List ℕ) → FileEditResult FilePath ⊎ BatchError FilePath
  file_edit file original (ok modified) = inl (record {
    source_file = file;
    original = original;
    modified = modified;
    outcome = modify;
    validation = validator_for file modified;
  })
  file_edit file original (not_found path) = inr (no_fragment file path)
  file_edit file original (conflicting a b) = inr (overlapping file a b)
  file_edit file original panicked = inr (panic file)

  unfoldable pub run_file : W → FilePath → EditPlan → FileEditResult FilePath ⊎ BatchError FilePath
  run_file w file ops = elim (decompose w file) [
    | none ↦ inr (undecomposed file)
    | some parsed ↦ file_edit file parsed.1 (Plan.run R blank ops parsed.0 parsed.1)
  ]

  -- The loop over the sorted entries, which stops at the first error.
  unfoldable pub run_files :
      W → List (FilePath × EditPlan) → List (FileEditResult FilePath) ⊎ BatchError FilePath
  run_files w [] = inl []
  run_files w ((file, ops) ∷ entries) =
      let rest = run_files w entries in
      elim (run_file w file ops) [
        | inr e ↦ inr e
        | inl result ↦ elim rest [ inl results ↦ inl (result ∷ results) | inr e ↦ inr e ]
      ]

  unfoldable pub compute_edits :
      Option FilePath
      → W
      → EditStaging FilePath
      → List (FileEditResult FilePath) ⊎ BatchError FilePath
  compute_edits scope w st = run_files w (sort_by_path (scoped_snapshot eq_path scope st))

  abbrev pub batch_action :
      Option FilePath → DiffSource W (EditStaging FilePath) FilePath (BatchError FilePath)
  batch_action scope = record {
    compute_edits = compute_edits scope;
    on_applied = λ st. (on_applied eq_path scope st, none);
  }
