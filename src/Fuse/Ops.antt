-- ===== src/Fuse/Ops.antt =====
-- The request handlers of nyne/src/fuse/ops.rs on open files, with the state by inode of
-- nyne/src/fuse/inode_state.rs. Each handler runs alone; Fuse.Handles.Flush has the flushes that
-- interleave. `save` writes the content of an inode through its node, in a world `W`, and answers the
-- message of an error. The lifecycle hook of the last close, and the attributes that `setattr`
-- answers with, are left out.
pub mod Readdir
pub mod Release
pub mod Tests
use Prim.Native.String.{String}
use native.Mathlib.Decide.{ℕ_discrete}
use nyne.Prelude.{
  ℕ, Bool, true, false, ◌&&◌, Option, none, some, List, [], ◌∷◌, if◌then◌else◌, length,
}
use nyne.Prelude.Maps.{lookup, remove, insert}
use nyne.Fuse.Slab.{Slab}
use nyne.Fuse.Handles.{
  FileIo, HandleEntry, DirtySnapshot, WriteOutcome, buffered, panicked, replacement, is_empty,
}
use nyne.Fuse.Handles.Flush.{FlushMode, eager, final, is_eager}
use nyne.Fuse.Handles.Table as Table

-- The write locks are of no use to handlers that run alone.
pub record InodeState : Type 0 where
  pub write_errors : List (ℕ × String)
  pub atime_overrides : List (ℕ × ℕ)

unfoldable pub set_write_error : InodeState → ℕ → String → InodeState
set_write_error s ino msg = record s { write_errors = insert ℕ_discrete ino msg s.write_errors }

unfoldable pub clear_write_error : InodeState → ℕ → InodeState
clear_write_error s ino = record s { write_errors = remove ℕ_discrete ino s.write_errors }

unfoldable pub write_error : InodeState → ℕ → Option String
write_error s ino = lookup ℕ_discrete ino s.write_errors

unfoldable pub set_atime : InodeState → ℕ → ℕ → InodeState
set_atime s ino atime = record s { atime_overrides = insert ℕ_discrete ino atime s.atime_overrides }

unfoldable pub atime : InodeState → ℕ → Option ℕ
atime s ino = lookup ℕ_discrete ino s.atime_overrides

unfoldable pub evict : InodeState → ℕ → InodeState
evict s ino = record {
  write_errors = remove ℕ_discrete ino s.write_errors;
  atime_overrides = remove ℕ_discrete ino s.atime_overrides;
}

-- What a handler replies; `failed` stands for the error number of the error with that message.
pub data Reply : Type 0 where
  ok : Reply
  written : ℕ → Reply
  failed : String → Reply
  eio : Reply
  panics : Reply

module _ {File : Type 0} (S : Slab (HandleEntry File)) where
  pub record FuseState (W : Type 0) : Type 0 where
    pub handles : S.Store
    pub inode_state : InodeState
    pub world : W

  module _ {W : Type 0} (save : W → ℕ → List ℕ → W × Option String) where
    -- `do_flush` behind the snapshot, by the answer of `flush_content`.
    unfoldable pub settle :
        FuseState W → ℕ → ℕ → DirtySnapshot → W → Option String → FuseState W × Option String
    settle st ino fh snapshot w none = (
      record {
        handles = Table.clear_dirty S st.handles fh snapshot.generation;
        inode_state = clear_write_error st.inode_state ino;
        world = w;
      },
      none,
    )
    settle st ino fh snapshot w (some message) = (
      record st { inode_state = set_write_error st.inode_state ino message; world = w },
      some message,
    )

    unfoldable pub flush_handle : FuseState W → ℕ → ℕ → FlushMode → FuseState W × Option String
    flush_handle st ino fh mode = elim (Table.dirty_snapshot S st.handles fh) [
      | none ↦ (st, none)
      | some snapshot ↦
          if is_eager mode && (is_empty snapshot.bytes && snapshot.was_truncated)
          then (st, none)
          else (let (w, answer) = save st.world ino snapshot.bytes in
              settle st ino fh snapshot w answer)
    ]

    abbrev pub reply_of : Reply → Option String → Reply
    reply_of success none = success
    reply_of success (some message) = failed message

    unfoldable pub flush : FuseState W → ℕ → ℕ → FuseState W × Reply
    flush st ino fh = let (st', answer) = flush_handle st ino fh eager in (st', reply_of ok answer)

    -- `release` cannot report the error of its flush.
    unfoldable pub release : FuseState W → ℕ → ℕ → FuseState W
    release st ino fh =
        let flushed = (flush_handle st ino fh final).0 in
        let left = (Table.release S flushed.handles fh).0 in
        if Table.has_handles_for_inode S left ino
        then record flushed { handles = left }
        else record flushed { handles = left; inode_state = evict flushed.inode_state ino }

    module _ (io : FileIo File) where
      abbrev pub after_write : ℕ → ℕ → FuseState W → Option WriteOutcome → FuseState W × Reply
      after_write ino fh st none = (st, eio)
      after_write ino fh st (some panicked) = (st, panics)
      after_write ino fh st (some (buffered n)) = (st, written n)
      after_write ino fh st (some (replacement n)) =
          let (st', answer) = flush_handle st ino fh final in (st', reply_of (written n) answer)

      unfoldable pub write : FuseState W → ℕ → ℕ → ℕ → List ℕ → FuseState W × Reply
      write st ino fh offset input =
          let (handles, outcome) = Table.write S io st.handles fh offset input in
          after_write ino fh (record st { handles = handles }) outcome

      abbrev pub resized : S.Store → ℕ → Option ℕ → Option ℕ → S.Store
      resized handles ino none fh = handles
      resized handles ino (some size) none = Table.truncate_by_inode S io handles ino size
      resized handles ino (some size) (some fh) = Table.truncate S io handles fh size

      abbrev pub touched : InodeState → ℕ → Option ℕ → InodeState
      touched s ino none = s
      touched s ino (some t) = set_atime s ino t

      unfoldable pub setattr : FuseState W → ℕ → Option ℕ → Option ℕ → Option ℕ → FuseState W
      setattr st ino size time fh = record st {
        handles = resized st.handles ino size fh;
        inode_state = touched st.inode_state ino time;
      }
