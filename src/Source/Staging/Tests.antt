-- ===== src/Source/Staging/Tests.antt =====
-- Runs of the theorems on staged edits; a world gives each file, which is a number, its bytes, and
-- every file decomposes into an empty symbol at its start.
use Prim.Native.String.{String}
use native.Mathlib.Decide.{ℕ_discrete}
use mathlib.Core.List.{List-discrete}
use mathlib.Core.Logic.{ite, if_neg}
use nyne.Prelude.{
  ℕ, ◌≡◌, ◌≢◌, refl, ap, Bool, false, Option, none, some, List, [], ◌∷◌, inl, inr, ◌⊎◌,
}
use nyne.Diff.{
  Filesystem, FileEditResult, DiffSource, modify, pass, apply_diff, ApplyResult, applied, failed,
  failures, apply_file_edits, apply_single_edit,
}
use nyne.Source.Fragment.{
  function_kind, symbol, fragment, Fragments, nil, cons, find_fragment, find_name, find_below,
  full_span,
}
use nyne.Source.Plan.{EditPlan, insert_after, insert_before, append, ok}
use nyne.Source.Plan as Plan
use nyne.Source.Splice.{ensure_leading_newline, prev_is_newline}
use nyne.Source.Staging.{EditStaging, StageKey, staged, stage, scoped_snapshot, on_applied, clear}
use nyne.Source.Staging.Batch.{
  BatchError, sort_by_path, insert_by_path, run_files, run_file, file_edit, validator_for,
  compute_edits, batch_action,
}
use nyne.Source.Staging.Batch.Outcomes.{apply_diff-loses}
use nyne.Source.Staging.Laws.{run}
use nyne.Source.Tests.{list_rope}

abbrev World : Type 0
World = ℕ → List ℕ

abbrev put : World → ℕ → List ℕ → World
put w p bytes = λ q. ite (ℕ_discrete p q) bytes (w q)

abbrev files : Filesystem World ℕ
files = record {
  write_file = λ w p bytes. (put w p bytes, none);
  rename = λ w p q. (put (put w q (w p)) p [], none);
  remove = λ w p. (put w p [], none);
}

abbrev read : World → ℕ → List ℕ
read w p = w p

abbrev eq_text : Discrete (List ℕ)
eq_text = List-discrete ℕ_discrete

abbrev name : StageKey
name = ("f" ∷ [], insert_after)

abbrev start_symbol : Fragments
start_symbol =
    cons
      (fragment
        (record {
          name = "f";
          kind = symbol function_kind;
          signature = none;
          visibility = none;
          metadata = none;
          parent_name = none;
          fs_name = some "f";
        })
        (record {
          byte_range = record { start = 0; end = 0 };
          full_span = record { start = 0; end = 0 };
          name_byte_offset = 0;
        })
        nil)
      nil

abbrev decompose : World → ℕ → Option (Fragments × List ℕ)
decompose w file = some (start_symbol, w file)

abbrev blank : List ℕ → Bool
blank line = false

abbrev before : ℕ → ℕ → Bool
before p q = false

abbrev checks : ℕ → Option (List ℕ → Option String)
checks file = some (λ bytes. none)

world : World
world = λ p. 65 ∷ []

abbrev staged_plan : EditPlan
staged_plan =
    (0, record { fragment_path = "f" ∷ []; kind = insert_after; content = some (66 ∷ []) }) ∷ []

abbrev one_staged : EditStaging ℕ
one_staged = record { ops = (4, staged_plan) ∷ []; counter = 1 }

abbrev modified : List ℕ
modified = 10 ∷ 66 ∷ 65 ∷ []

abbrev one_edit : FileEditResult ℕ
one_edit = record {
  source_file = 4;
  original = 65 ∷ [];
  modified = modified;
  outcome = modify;
  validation = pass;
}

planned : Plan.run list_rope blank staged_plan start_symbol (65 ∷ []) ≡ ok modified
unfolding Plan.run Plan.resolve Plan.resolve_all Plan.resolve_op Plan.apply Plan.apply_loop
    Plan.sort Plan.insert_sorted Plan.check_conflicts find_fragment find_name find_below full_span
    Plan.check ensure_leading_newline prev_is_newline Plan.content
planned = refl

abbrev batch : DiffSource World (EditStaging ℕ) ℕ (BatchError ℕ)
batch = batch_action list_rope blank ℕ_discrete before decompose checks none

edited :
    run_file list_rope blank ℕ_discrete before decompose checks world 4 staged_plan ≡ inl one_edit
unfolding run_file validator_for world
edited = ap (file_edit list_rope blank ℕ_discrete before decompose checks 4 (65 ∷ [])) planned

computed :
    compute_edits list_rope blank ℕ_discrete before decompose checks none world one_staged
    ≡ inl (one_edit ∷ [])
unfolding compute_edits run_files sort_by_path insert_by_path scoped_snapshot
computed =
    ap
      (λ r. elim r as (λ x. List (FileEditResult ℕ) ⊎ BatchError ℕ) [
        | inr e ↦ inr e
        | inl result ↦ inl (result ∷ [])
      ])
      edited

differs : (65 ∷ []) ≢ modified
differs h = cc

wrote : apply_single_edit eq_text files one_edit world [] ≡ (put world 4 modified, 4 ∷ [], none)
unfolding apply_single_edit
wrote = if_neg (eq_text (65 ∷ []) modified) differs _ _

wrote_all :
    apply_file_edits eq_text files (one_edit ∷ []) world [] ≡ (put world 4 modified, 4 ∷ [], none)
unfolding apply_file_edits
wrote_all =
    ap
      (λ (r : World × List ℕ × Option String). (elim r.2 as (λ o. World × List ℕ × Option String) [
        | none ↦ (r.0, r.1, none)
        | some e ↦ (r.0, r.1, some e)
      ]))
      wrote

succeeds :
    (f : EditStaging ℕ → EditStaging ℕ)
    → (apply_diff eq_text files batch f world one_staged).2 ≡ applied
unfolding apply_diff failures on_applied
succeeds f =
    rw (apply_diff, computed)
      (ap
        (λ (r : World × List ℕ × Option String).
          (elim r.2 as (λ o. World × EditStaging ℕ × ApplyResult (BatchError ℕ)) [
            | none ↦ (r.0, clear ℕ_discrete (f one_staged), applied)
            | some e ↦ (r.0, f one_staged, failed e)
          ]).2)
        wrote_all)

apply_diff-loses_example :
    staged ℕ_discrete
      (apply_diff eq_text files batch
        (λ s. (stage ℕ_discrete s 7 name (some (67 ∷ []))).0)
        world
        one_staged).1
      7
    ≡ []
apply_diff-loses_example =
    apply_diff-loses list_rope blank ℕ_discrete before decompose checks eq_text files world
      one_staged none 7 name (some (67 ∷ [])) (inl refl)
      (succeeds (λ s. (stage ℕ_discrete s 7 name (some (67 ∷ []))).0))
