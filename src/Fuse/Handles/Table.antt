-- ===== src/Fuse/Handles/Table.antt =====
-- `HandleTable` of nyne/src/fuse/handles/mod.rs: the operations on the slab of open handles.
pub mod Laws
use nyne.Prelude.{ℕ, ◌≡◌, Bool, true, false, Option, none, some, List, [], ◌==◌, if◌then◌else◌}
use nyne.Fuse.Slab.{Slab}
use nyne.Fuse.Handles.{
  FileIo, HandleEntry, WriteOutcome, DirtySnapshot, parse, new_buffered, new_direct, write_entry,
  read_entry, truncate_entry,
}
use nyne.Fuse.Handles

module _ {File : Type 0} (S : Slab (HandleEntry File)) where
  open S use {Store, get, insert, remove, put, update, any}

  unfoldable pub open_buffered : Store → ℕ → List ℕ → ℕ → Store × ℕ
  open_buffered s inode content open_flags =
      insert s (new_buffered inode content (parse open_flags))

  unfoldable pub open_direct : Store → ℕ → File → ℕ → Store × ℕ
  open_direct s inode file open_flags = insert s (new_direct inode file (parse open_flags))

  unfoldable pub has_handles_for_inode : Store → ℕ → Bool
  has_handles_for_inode s inode = any (λ e. e.inode == inode) s

  unfoldable pub dirty_snapshot : Store → ℕ → Option DirtySnapshot
  dirty_snapshot s fh = elim (get s fh) [ none ↦ none | some e ↦ Handles.dirty_snapshot e ]

  unfoldable pub clear_dirty : Store → ℕ → ℕ → Store
  clear_dirty s fh snapshot_gen = elim (get s fh) [
    | none ↦ s
    | some e ↦ put s fh (Handles.clear_dirty e snapshot_gen)
  ]

  unfoldable pub release : Store → ℕ → Store × Option (HandleEntry File)
  release s fh = elim (get s fh) [ none ↦ (s, none) | some e ↦ (remove s fh, some e) ]

  module _ (io : FileIo File) where
    -- `none` is an IO error.
    unfoldable pub read : Store → ℕ → ℕ → ℕ → Option (List ℕ)
    read s fh offset size = elim (get s fh) [
      | none ↦ some []
      | some e ↦ read_entry io e offset size
    ]

    unfoldable pub write : Store → ℕ → ℕ → List ℕ → Store × Option WriteOutcome
    write s fh offset input = elim (get s fh) [
      | none ↦ (s, none)
      | some e ↦ let (e', result) = write_entry io e offset input in (put s fh e', result)
    ]

    unfoldable pub truncate : Store → ℕ → ℕ → Store
    truncate s fh size = elim (get s fh) [ none ↦ s | some e ↦ put s fh (truncate_entry io e size) ]

    unfoldable pub truncate_by_inode : Store → ℕ → ℕ → Store
    truncate_by_inode s inode size =
        update (λ e. if e.inode == inode then truncate_entry io e size else e) s
