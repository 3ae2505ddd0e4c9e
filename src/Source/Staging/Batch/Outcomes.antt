-- ===== src/Source/Staging/Batch/Outcomes.antt =====
-- What `BatchEditAction` of plugins/source/src/edit/staging/mod.rs computes, and what applying it does.
use Prim.Native.String.{String}
use mathlib.Core.Logic.{if_pos}
use nyne.Prelude.{
  ℕ, ◌≡◌, ◌≢◌, refl, ap, ◌∙◌, Bool, Option, none, some, List, [], ◌∷◌, length, ◌⊎◌, inl, inr,
  Option-cases,
}
use nyne.Prelude.Maps.{lookup, lookup-remove}
use nyne.Diff.{Filesystem, FileEditResult, modify, apply_diff, applied}
use nyne.Diff.Apply.{apply_diff-state}
use nyne.Source.Fragment.{Fragments}
use nyne.Source.Fragment.Fit.{FragmentsFit}
use nyne.Source.Splice.{Rope}
use nyne.Source.Plan.{EditPlan, PlanResult, ok, not_found, conflicting, panicked}
use nyne.Source.Plan as Plan
use nyne.Source.Plan.Resolve.{Outcome, run-Outcome}
use nyne.Source.Staging.{
  EditStaging, StageKey, staged, stage, scoped_snapshot, on_applied, clear, drain_file, or_default,
}
use nyne.Source.Staging.Batch.{
  BatchError, panic, file_edit, run_file, validator_for, sort_by_path, run_files, compute_edits,
  batch_action,
}

module _ {W FilePath : Type 0} (R : Rope) (blank : List ℕ → Bool) (eq_path : Discrete FilePath)
    (le_path : FilePath → FilePath → Bool) (decompose : W → FilePath → Option (Fragments × List ℕ))
    (decomposer_for : FilePath → Option (List ℕ → Option String)) where
  -- Decomposition gives fragments that lie in the text.
  abbrev pub AllFitted : W → Type 0
  AllFitted w =
      (file : FilePath) (parsed : Fragments × List ℕ)
      → decompose w file ≡ some parsed
      → FragmentsFit (length parsed.1) parsed.0

  run-ne_panicked :
      (source : List ℕ) (fragments : Fragments) (ops : EditPlan) (r : PlanResult (List ℕ))
      → Outcome R blank source fragments ops r
      → r ≢ panicked
  run-ne_panicked source fragments ops r (inl (edits, made, count, it)) h = cc
  run-ne_panicked source fragments ops r (inr (inl (path, absent, it))) h = cc
  run-ne_panicked source fragments ops r (inr (inr (a, b, clash, it))) h = cc

  -- The edit of a file that has its plan applied to the file's text.
  pub data FileMade (w : W) (file : FilePath) (ops : EditPlan)
      : FileEditResult FilePath → Type 0 where
    made :
        {result : FileEditResult FilePath} (parsed : Fragments × List ℕ) (modified : List ℕ)
        → decompose w file ≡ some parsed
        → Plan.run R blank ops parsed.0 parsed.1 ≡ ok modified
        → result ≡ record {
          source_file = file;
          original = parsed.1;
          modified = modified;
          outcome = modify;
          validation = validator_for R blank eq_path le_path decompose decomposer_for file modified;
        }
        → FileMade w file ops result

  -- How computing the edit of a file can end.
  abbrev pub FileEnding :
      W → FilePath → EditPlan → FileEditResult FilePath ⊎ BatchError FilePath → Type 0
  FileEnding w file ops (inl result) = FileMade w file ops result
  FileEnding w file ops (inr e) = (p : FilePath) → e ≢ panic p

  file_edit-FileEnding :
      (w : W) (file : FilePath) (ops : EditPlan) (parsed : Fragments × List ℕ)
      (r : PlanResult (List ℕ))
      → decompose w file ≡ some parsed
      → Plan.run R blank ops parsed.0 parsed.1 ≡ r
      → r ≢ panicked
      → FileEnding w file ops
          (file_edit R blank eq_path le_path decompose decomposer_for file parsed.1 r)
  file_edit-FileEnding w file ops parsed (ok modified) found ran h =
      made parsed modified found ran refl
  file_edit-FileEnding w file ops parsed (not_found path) found ran h = λ p e. cc
  file_edit-FileEnding w file ops parsed (conflicting a b) found ran h = λ p e. cc
  file_edit-FileEnding w file ops parsed panicked found ran h = absurd (h refl)

  run_file-FileEnding :
      (w : W) (file : FilePath) (ops : EditPlan)
      → AllFitted w
      → FileEnding w file ops (run_file R blank eq_path le_path decompose decomposer_for w file ops)
  unfolding run_file
  run_file-FileEnding w file ops fitted = elim (Option-cases (decompose w file)) [
    | inl missing ↦ rw (run_file, missing) (λ p h. cc)
    | inr (parsed, found) ↦
        rw (run_file, found)
          (file_edit-FileEnding w file ops parsed (Plan.run R blank ops parsed.0 parsed.1) found
            refl
            (run-ne_panicked parsed.1 parsed.0 ops (Plan.run R blank ops parsed.0 parsed.1)
              (run-Outcome R blank parsed.1 parsed.0 ops (fitted file parsed found))))
  ]

  pub data Computed (w : W)
      : List (FilePath × EditPlan) → List (FileEditResult FilePath) → Type 0 where
    nothing : Computed w [] []
    one_file :
        {file : FilePath} {ops : EditPlan} {entries : List (FilePath × EditPlan)}
        {result : FileEditResult FilePath} {results : List (FileEditResult FilePath)}
        → FileMade w file ops result
        → Computed w entries results
        → Computed w ((file, ops) ∷ entries) (result ∷ results)

  -- How computing the edits of some files can end.
  abbrev pub ComputeEnding :
      W → List (FilePath × EditPlan) → List (FileEditResult FilePath) ⊎ BatchError FilePath → Type 0
  ComputeEnding w entries (inl results) = Computed w entries results
  ComputeEnding w entries (inr e) = (p : FilePath) → e ≢ panic p

  both_endings :
      (w : W) (file : FilePath) (ops : EditPlan) (entries : List (FilePath × EditPlan))
      (first : FileEditResult FilePath ⊎ BatchError FilePath)
      (rest : List (FileEditResult FilePath) ⊎ BatchError FilePath)
      → FileEnding w file ops first
      → ComputeEnding w entries rest
      → ComputeEnding w ((file, ops) ∷ entries) (elim first [
        | inr e ↦ inr e
        | inl result ↦ elim rest [ inl results ↦ inl (result ∷ results) | inr e ↦ inr e ]
      ])
  both_endings w file ops entries (inr e) rest h k = h
  both_endings w file ops entries (inl result) (inr e) h k = k
  both_endings w file ops entries (inl result) (inl results) h k = one_file h k

  run_files-ComputeEnding :
      (w : W) (entries : List (FilePath × EditPlan))
      → AllFitted w
      → ComputeEnding w entries
          (run_files R blank eq_path le_path decompose decomposer_for w entries)
  unfolding run_files
  run_files-ComputeEnding w [] fitted = nothing
  run_files-ComputeEnding w ((file, ops) ∷ entries) fitted =
      both_endings w file ops entries
        (run_file R blank eq_path le_path decompose decomposer_for w file ops)
        (run_files R blank eq_path le_path decompose decomposer_for w entries)
        (run_file-FileEnding w file ops fitted) (run_files-ComputeEnding w entries fitted)

  -- Each path is there once.
  abbrev pub AwayFrom : FilePath → List (FilePath × EditPlan) → Type 0
  AwayFrom p [] = Unit {0}
  AwayFrom p (e ∷ es) = (p ≢ e.0) × AwayFrom p es

  abbrev pub PathsDistinct : List (FilePath × EditPlan) → Type 0
  PathsDistinct [] = Unit {0}
  PathsDistinct (e ∷ es) = AwayFrom e.0 es × PathsDistinct es

  on_applied-staged :
      (scope : Option FilePath) (file : FilePath) (st : EditStaging FilePath)
      → (scope ≡ none) ⊎ (scope ≡ some file)
      → staged eq_path (on_applied eq_path scope st) file ≡ []
  unfolding on_applied staged clear drain_file lookup
  on_applied-staged none file st covers = refl
  on_applied-staged (some p) file st (inl it) = cc
  on_applied-staged (some p) file st (inr it) =
      let same : p ≡ file = cc in
      ap or_default (lookup-remove eq_path file p st.ops ∙ if_pos (eq_path p file) same _ _)

  -- Computing the edits of staged operations, on fragments that lie in their texts, never panics: each
  -- result is the text of a file with its operations applied, or the error names a file that is not
  -- decomposed, a missing fragment or an overlap.
  pub compute_edits-ComputeEnding :
      (scope : Option FilePath) (w : W) (st : EditStaging FilePath)
      → AllFitted w
      → ComputeEnding w
          (sort_by_path R blank eq_path le_path decompose decomposer_for
            (scoped_snapshot eq_path scope st))
          (compute_edits R blank eq_path le_path decompose decomposer_for scope w st)
  unfolding compute_edits
  compute_edits-ComputeEnding scope w st fitted =
      run_files-ComputeEnding w
        (sort_by_path R blank eq_path le_path decompose decomposer_for
          (scoped_snapshot eq_path scope st))
        fitted

  -- What other requests stage for a file while a batch without a scope, or with that file as its scope,
  -- is applied, is gone afterwards, though the batch was computed without it.
  pub apply_diff-loses :
      (eq_text : Discrete (List ℕ)) (fs : Filesystem W FilePath) (w : W) (st : EditStaging FilePath)
      (scope : Option FilePath) (file : FilePath) (k : StageKey) (c : Option (List ℕ))
      → (scope ≡ none) ⊎ (scope ≡ some file)
      → (apply_diff eq_text fs
          (batch_action R blank eq_path le_path decompose decomposer_for scope)
          (λ s. (stage eq_path s file k c).0)
          w
          st).2
        ≡ applied
      → staged eq_path
          (apply_diff eq_text fs
            (batch_action R blank eq_path le_path decompose decomposer_for scope)
            (λ s. (stage eq_path s file k c).0)
            w
            st).1
          file
        ≡ []
  apply_diff-loses eq_text fs w st scope file k c covers done =
      ap (λ s. staged eq_path s file)
        (apply_diff-state eq_text fs
          (batch_action R blank eq_path le_path decompose decomposer_for scope)
          (λ s. (stage eq_path s file k c).0) w st done)
      ∙ on_applied-staged scope file (stage eq_path st file k c).0 covers

  module _ (eq_text : Discrete (List ℕ)) (fs : Filesystem W FilePath)
      (read : W → FilePath → List ℕ) where
    -- Decomposition is of the text that the file holds.
    abbrev pub AllFresh : W → Type 0
    AllFresh w =
        (file : FilePath) (parsed : Fragments × List ℕ)
        → decompose w file ≡ some parsed
        → read w file ≡ parsed.1
