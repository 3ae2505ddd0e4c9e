-- ===== src/Source/Staging/Laws.antt =====
-- The staging area of plugins/source/src/edit/staging/mod.rs: what an operation stages, and the order
-- and the keys of what is staged.
use nyne.Prelude.{ℕ, Option, List, [], ◌∷◌}
use nyne.Prelude.Maps.{insert}
use nyne.Source.Plan.{EditPlan}
use nyne.Source.Staging.{StageKey, EditStaging, staged, stage, drain, drain_file, clear}
use nyne.Source.Staging.Keys.{find_op, Rising, Deduped}

pub data StagingAction (FilePath : Type 0) : Type 0 where
  staging : FilePath → StageKey → Option (List ℕ) → StagingAction FilePath
  draining clearing : StagingAction FilePath
  draining_file : FilePath → StagingAction FilePath

module _ {FilePath : Type 0} (eq_path : Discrete FilePath) where
  -- The operation of a file with a key.
  abbrev pub staged_op : EditStaging FilePath → FilePath → StageKey → Option (ℕ × Option (List ℕ))
  staged_op st p k = find_op k (staged eq_path st p)

  abbrev placed : EditStaging FilePath → FilePath → EditPlan → ℕ → EditStaging FilePath
  placed st file plan counter = record { ops = insert eq_path file plan st.ops; counter = counter }

  -- In each file the operations are in the order of their numbers, which stay below the counter, and no
  -- two have the same fragment and kind.
  pub record IsStaged (st : EditStaging FilePath) : Type 0 where
    pub rising : (p : FilePath) → Rising 0 (staged eq_path st p) st.counter
    pub deduped : (p : FilePath) → Deduped (staged eq_path st p)

  unfoldable pub step : EditStaging FilePath → StagingAction FilePath → EditStaging FilePath
  step st (staging file k c) = (stage eq_path st file k c).0
  step st draining = (drain eq_path st).0
  step st (draining_file file) = (drain_file eq_path st file).0
  step st clearing = clear eq_path st

  unfoldable pub run : EditStaging FilePath → List (StagingAction FilePath) → EditStaging FilePath
  run st [] = st
  run st (a ∷ rest) = run (step st a) rest
