-- ===== src/Source/Staging.antt =====
-- plugins/source/src/edit/staging/mod.rs: the staging area of edits, and the diff source that applies
-- it. The lock is held over each operation, so an operation is one step. Paths are compared by
-- `Discrete`; the counter wraps as a `u32` does.
pub mod Batch
pub mod Keys
pub mod Laws
pub mod Tests
use Prim.Native.String.{String}
use mathlib.Core.Logic.{ite}
use mathlib.Core.List.{List-discrete}
use mathlib.Core.HLevel.{×_discrete}
use nyne.Prelude.{
  ℕ, ◌+◌, ◌%◌, ◌^◌, ◌≡◌, Bool, true, false, ◌||◌, Option, none, some, List, [], ◌∷◌, ◌++◌, map,
  text_discrete, if◌then◌else◌, ◌⊎◌, inl, inr,
}
use nyne.Prelude.Maps.{lookup, insert, remove}
use nyne.Source.Plan.{
  EditOpKind, replace, delete, insert_before, insert_after, append, EditOp, EditPlan,
}

abbrev pub EditOpKind-discrete : Discrete EditOpKind
EditOpKind-discrete = hlevel

-- `fragment_path` and `kind`, by which staging is idempotent.
abbrev pub StageKey : Type 0
StageKey = List String × EditOpKind

abbrev pub key : EditOp → StageKey
key op = (op.fragment_path, op.kind)

unfoldable pub key_discrete : Discrete StageKey
key_discrete = ×_discrete (List-discrete text_discrete) EditOpKind-discrete

-- The last write that is not empty wins.
abbrev pub merge_content : Option (List ℕ) → Option (List ℕ) → Option (List ℕ)
merge_content new none = new
merge_content none (some old) = some old
merge_content (some new) (some old) = some new

unfoldable pub find_seq : StageKey → EditPlan → Option ℕ
find_seq k [] = none
find_seq k ((seq, op) ∷ ops) = ite (key_discrete (key op) k) (some seq) (find_seq k ops)

-- The first operation with the key gets the merged content, and keeps its sequence number.
unfoldable pub update_op : StageKey → Option (List ℕ) → EditPlan → EditPlan
update_op k content [] = []
update_op k content ((seq, op) ∷ ops) =
    ite (key_discrete (key op) k)
      ((seq, record op { content = merge_content content op.content }) ∷ ops)
      ((seq, op) ∷ update_op k content ops)

abbrev pub new_op : StageKey → Option (List ℕ) → EditOp
new_op k content = record { fragment_path = k.0; kind = k.1; content = content }

pub record EditStaging (FilePath : Type 0) : Type 0 where
  pub ops : List (FilePath × EditPlan)
  pub counter : ℕ

abbrev pub u32_mod : ℕ
u32_mod = 0x1_0000_0000

abbrev pub or_default : Option EditPlan → EditPlan
or_default none = []
or_default (some ops) = ops

module _ {FilePath : Type 0} (eq_path : Discrete FilePath) where
  abbrev pub new : EditStaging FilePath
  new = record { ops = []; counter = 0 }

  -- The operations that are staged for a file.
  unfoldable pub staged : EditStaging FilePath → FilePath → EditPlan
  staged st file = or_default (lookup eq_path file st.ops)

  abbrev pub stage_in :
      EditStaging FilePath
      → FilePath
      → StageKey
      → Option (List ℕ)
      → EditPlan
      → Option ℕ
      → EditStaging FilePath × ℕ
  stage_in st file k content entry (some seq) =
      (record st { ops = insert eq_path file (update_op k content entry) st.ops }, seq)
  stage_in st file k content entry none = (
    record {
      ops = insert eq_path file (entry ++ (st.counter, new_op k content) ∷ []) st.ops;
      counter = (st.counter + 1) % u32_mod;
    },
    st.counter,
  )

  unfoldable pub stage :
      EditStaging FilePath → FilePath → StageKey → Option (List ℕ) → EditStaging FilePath × ℕ
  stage st file k content =
      let entry = staged st file in stage_in st file k content entry (find_seq k entry)

  unfoldable pub drain : EditStaging FilePath → EditStaging FilePath × List (FilePath × EditPlan)
  drain st = (record st { ops = [] }, st.ops)

  unfoldable pub drain_file : EditStaging FilePath → FilePath → EditStaging FilePath × EditPlan
  drain_file st file = (record st { ops = remove eq_path file st.ops }, staged st file)

  unfoldable pub clear : EditStaging FilePath → EditStaging FilePath
  clear st = record { ops = []; counter = 0 }

  abbrev pub no_ops : List (FilePath × EditPlan) → Bool
  no_ops [] = true
  no_ops (x ∷ xs) = false

  unfoldable pub is_empty : EditStaging FilePath → Bool
  is_empty st = no_ops st.ops

  -- `HashMap::retain` on the paths equal to one.
  unfoldable pub retain_path : FilePath → List (FilePath × EditPlan) → List (FilePath × EditPlan)
  retain_path file [] = []
  retain_path file ((p, ops) ∷ rest) =
      ite (eq_path p file) ((p, ops) ∷ retain_path file rest) (retain_path file rest)

  unfoldable pub scoped_snapshot :
      Option FilePath → EditStaging FilePath → List (FilePath × EditPlan)
  scoped_snapshot none st = st.ops
  scoped_snapshot (some scope) st = retain_path scope st.ops

  unfoldable pub on_applied : Option FilePath → EditStaging FilePath → EditStaging FilePath
  on_applied none st = clear st
  on_applied (some scope) st = (drain_file st scope).0

  abbrev pub content_of_bytes : List ℕ → Option (List ℕ)
  content_of_bytes [] = none
  content_of_bytes (b ∷ bs) = some (b ∷ bs)

  -- `StageWritable::write`; the text is its bytes.
  unfoldable pub write_stage :
      EditStaging FilePath → FilePath → StageKey → List ℕ → EditStaging FilePath
  write_stage st file k bytes = (stage st file k (content_of_bytes bytes)).0

  -- `ClearWritable::write`, with the files it reports as affected.
  unfoldable pub write_clear :
      Option FilePath → EditStaging FilePath → EditStaging FilePath × List FilePath
  write_clear none st = let (st', ops) = drain st in (st', map (λ e. e.0) ops)
  write_clear (some scope) st = ((drain_file st scope).0, scope ∷ [])
