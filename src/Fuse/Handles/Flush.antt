-- ===== src/Fuse/Handles/Flush.antt =====
-- `FuseFilesystem::do_flush` of nyne/src/fuse/ops.rs on one handle. The snapshot is taken before the
-- write lock of the inode, so the call is two steps with other calls between them. Writing the
-- content through the node (`flush_content`) is the environment's: its answer is an argument.
use Prim.Native.String.{String}
use nyne.Prelude.{
  ℕ, zero, suc, Bool, true, false, ◌&&◌, Option, none, some, List, [], ◌∷◌, if◌then◌else◌,
  get_elem?,
}
use nyne.Fuse.Handles.{
  FileIo, HandleEntry, DirtySnapshot, is_empty, write_entry, truncate_entry, dirty_snapshot,
  clear_dirty,
}

pub data FlushMode : Type 0 where
  eager final : FlushMode

abbrev pub is_eager : FlushMode → Bool
is_eager eager = true
is_eager final = false

-- One handle, the bytes that were last written through its node, the error message of its inode, and
-- the flushes that have their snapshot and wait for the lock or the write.
pub record Session (File : Type 0) : Type 0 where
  pub entry : HandleEntry File
  pub stored : List ℕ
  pub write_error : Option String
  pub in_flight : List DirtySnapshot

pub data Action : Type 0 where
  write : ℕ → List ℕ → Action
  truncate : ℕ → Action
  begin : FlushMode → Action
  commit : ℕ → Option String → Action

-- The list without the item at an index.
unfoldable pub erase_idx {ℓ} : {A : Type ℓ} → List A → ℕ → List A
erase_idx [] i = []
erase_idx (x ∷ xs) zero = xs
erase_idx (x ∷ xs) (suc i) = x ∷ erase_idx xs i

module _ {File : Type 0} where
  -- `do_flush` up to the lock: the snapshot to write, if the handle is dirty and the write is not
  -- deferred to the release.
  unfoldable pub begin_flush : FlushMode → HandleEntry File → Option DirtySnapshot
  begin_flush mode e = elim (dirty_snapshot e) [
    | none ↦ none
    | some s ↦ if is_eager mode && (is_empty s.bytes && s.was_truncated) then none else some s
  ]

  -- `do_flush` under the lock; `none` is a write that succeeded.
  unfoldable pub end_flush : DirtySnapshot → Option String → Session File → Session File
  end_flush s none st = record st {
    entry = clear_dirty st.entry s.generation;
    stored = s.bytes;
    write_error = none;
  }
  end_flush s (some message) st = record st { write_error = some message }

  unfoldable pub start : Option DirtySnapshot → Session File → Session File
  start none st = st
  start (some s) st = record st { in_flight = s ∷ st.in_flight }

  unfoldable pub finish : Option DirtySnapshot → ℕ → Option String → Session File → Session File
  finish none i answer st = st
  finish (some s) i answer st =
      end_flush s answer (record st { in_flight = erase_idx st.in_flight i })

  -- The whole call with nothing in between.
  unfoldable pub do_flush : FlushMode → Option String → Session File → Session File
  do_flush mode answer st = elim (begin_flush mode st.entry) [
    | none ↦ st
    | some s ↦ end_flush s answer st
  ]

  module _ (io : FileIo File) where
    unfoldable pub step : Session File → Action → Session File
    step st (write offset input) = record st { entry = (write_entry io st.entry offset input).0 }
    step st (truncate size) = record st { entry = truncate_entry io st.entry size }
    step st (begin mode) = start (begin_flush mode st.entry) st
    step st (commit i answer) = finish (get_elem? st.in_flight i) i answer st

    unfoldable pub run : Session File → List Action → Session File
    run st [] = st
    run st (a ∷ actions) = run (step st a) actions
