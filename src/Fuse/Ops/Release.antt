-- ===== src/Fuse/Ops/Release.antt =====
-- What flushes and releases of nyne/src/fuse/ops.rs leave of the write errors.
use Prim.Native.String.{String}
use mathlib.Core.Logic.{ite, if_pos, if_neg}
use native.Mathlib.Decide.{ℕ_discrete}
use nyne.Prelude.{
  ℕ, ◌≡◌, ◌≢◌, refl, sym, ◌∙◌, false, ◌&&◌, Option, none, some, List, Option-cases, Bool-cases, inl,
  inr, ◌⊎◌,
}
use nyne.Prelude.Maps.{lookup-remove, lookup-insert}
use nyne.Fuse.Slab.{Slab}
use nyne.Fuse.Handles.{HandleEntry, DirtySnapshot, is_empty}
use nyne.Fuse.Handles.Flush.{FlushMode, final, is_eager}
use nyne.Fuse.Handles.Table as Table
use nyne.Fuse.Ops.{
  InodeState, set_write_error, clear_write_error, write_error, evict, FuseState, settle,
  flush_handle, release,
}

write_error-set :
    (s : InodeState) (ino j : ℕ) (msg : String)
    → write_error (set_write_error s ino msg) j
      ≡ ite (ℕ_discrete ino j) (some msg) (write_error s j)
unfolding write_error set_write_error
write_error-set s ino j msg = lookup-insert ℕ_discrete j ino msg s.write_errors

write_error-clear :
    (s : InodeState) (ino j : ℕ)
    → write_error (clear_write_error s ino) j ≡ ite (ℕ_discrete ino j) none (write_error s j)
unfolding write_error clear_write_error
write_error-clear s ino j = lookup-remove ℕ_discrete j ino s.write_errors

write_error-evict :
    (s : InodeState) (ino j : ℕ)
    → write_error (evict s ino) j ≡ ite (ℕ_discrete ino j) none (write_error s j)
unfolding write_error evict
write_error-evict s ino j = lookup-remove ℕ_discrete j ino s.write_errors

module _ {File W : Type 0} (S : Slab (HandleEntry File))
    (save : W → ℕ → List ℕ → W × Option String) where
  settle-errors :
      (st : FuseState S W) (ino fh : ℕ) (snapshot : DirtySnapshot) (w : W) (answer : Option String)
      → let (st', reported) = settle S save st ino fh snapshot w answer in
        (reported ≡ answer)
        × (write_error st'.inode_state ino ≡ answer)
        × ((j : ℕ) → j ≢ ino → write_error st'.inode_state j ≡ write_error st.inode_state j)
  unfolding settle
  settle-errors st ino fh snapshot w none = (
    refl,
    write_error-clear st.inode_state ino ino ∙ if_pos (ℕ_discrete ino ino) refl _ _,
    λ j other.
        write_error-clear st.inode_state ino j
        ∙ if_neg (ℕ_discrete ino j) (λ same. other (sym same)) _ _,
  )
  settle-errors st ino fh snapshot w (some message) = (
    refl,
    write_error-set st.inode_state ino ino message ∙ if_pos (ℕ_discrete ino ino) refl _ _,
    λ j other.
        write_error-set st.inode_state ino j message
        ∙ if_neg (ℕ_discrete ino j) (λ same. other (sym same)) _ _,
  )

  -- A flush does nothing, or records what its write answered as the inode's error; the errors of other
  -- inodes stay.
  pub flush_handle-errors :
      (st : FuseState S W) (ino fh : ℕ) (mode : FlushMode)
      → let (st', reported) = flush_handle S save st ino fh mode in
        (((st' ≡ st) × (reported ≡ none)) ⊎ (write_error st'.inode_state ino ≡ reported))
        × ((j : ℕ) → j ≢ ino → write_error st'.inode_state j ≡ write_error st.inode_state j)
  unfolding flush_handle
  flush_handle-errors st ino fh mode = elim (Option-cases (Table.dirty_snapshot S st.handles fh)) [
    | inl clean ↦ rw (flush_handle, clean) (inl (refl, refl), λ j other. refl)
    | inr (s, dirty) ↦ elim (Bool-cases (is_eager mode && (is_empty s.bytes && s.was_truncated))) [
      | inl deferred ↦ rw (flush_handle, dirty, deferred) (inl (refl, refl), λ j other. refl)
      | inr due ↦
          let (w, answer) = save st.world ino s.bytes in
          let (told, own, others) = settle-errors st ino fh s w answer in
          rw (flush_handle, dirty, due) (inr (own ∙ sym told), others)
    ]
  ]

  -- When the last handle of an inode is released, no error is left for the inode, not even that of the
  -- flush which the release itself made; the errors of other inodes stay.
  pub release-evict :
      (st : FuseState S W) (ino fh : ℕ)
      → Table.has_handles_for_inode S
          (Table.release S (flush_handle S save st ino fh final).0.handles fh).0
          ino
        ≡ false
      → (write_error (release S save st ino fh).inode_state ino ≡ none)
        × ((j : ℕ)
            → j ≢ ino
            → write_error (release S save st ino fh).inode_state j ≡ write_error st.inode_state j)
  unfolding release
  release-evict st ino fh last =
      let flushed = (flush_handle S save st ino fh final).0 in
      rw (release, last)
        (
          write_error-evict flushed.inode_state ino ino ∙ if_pos (ℕ_discrete ino ino) refl _ _,
          λ j other.
              write_error-evict flushed.inode_state ino j
              ∙ if_neg (ℕ_discrete ino j) (λ same. other (sym same)) _ _
              ∙ (flush_handle-errors st ino fh final).1 j other,
        )
