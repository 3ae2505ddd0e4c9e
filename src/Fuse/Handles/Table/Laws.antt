-- ===== src/Fuse/Handles/Table/Laws.antt =====
-- What each operation of `HandleTable` (nyne/src/fuse/handles/mod.rs) does to the handle that it names,
-- and that it leaves the other handles alone.
use nyne.Prelude.{
  arith, ◌≤◌, ℕ, ◌+◌, ◌^◌, ◌<◌, ◌≡◌, ◌≢◌, refl, ◌∙◌, ap, true, none, some, List, ◌==◌,
  if◌then◌else◌, map_option, ne→==, ==-of_eq, inl, inr, Option-cases, length, take, drop, ==_iff,
}
use nyne.Fuse.Slab.{Slab}
use nyne.Fuse.Handles.{FileIo, HandleEntry, parse, new_buffered, write_entry, truncate_entry}
use nyne.Fuse.Handles.Bytes.{
  max_read, IsQuiet, IsFresh, contents, start_of, contents-write_entry, pwrite-slice,
  read_entry-contents,
}
use nyne.Fuse.Handles.Table

module _ {File : Type 0} (S : Slab (HandleEntry File)) where
  open S use {
    Store, get, insert, remove, put, update, any, get-fresh, get-insert, get-remove, get-put,
    get-update, any-found, any-of_get,
  }

  get-put_other :
      (s : Store) (k : ℕ) (e : HandleEntry File) (j : ℕ) → j ≢ k → get (put s k e) j ≡ get s j
  get-put_other s k e j other = rw (get-put s k e j, ne→== j k other)

  get-put_self :
      (s : Store) (k : ℕ) (old e : HandleEntry File)
      → get s k ≡ some old
      → get (put s k e) k ≡ some e
  get-put_self s k old e found = rw (get-put s k e k, ==-of_eq k k refl, found)

  -- `open` gives a number that no open handle has, for a handle on the inode, and keeps the others.
  pub get-open_buffered :
      (s : Store) (inode : ℕ) (content : List ℕ) (open_flags : ℕ)
      → let (s', fh) = Table.open_buffered S s inode content open_flags in
        (get s fh ≡ none)
        × (get s' fh ≡ some (new_buffered inode content (parse open_flags)))
        × ((j : ℕ) → j ≢ fh → get s' j ≡ get s j)
  unfolding Table.open_buffered
  get-open_buffered s inode content open_flags =
      let e : HandleEntry File = new_buffered inode content (parse open_flags) in
      (
        get-fresh s e,
        rw (get-insert s e (insert s e).1, ==-of_eq (insert s e).1 (insert s e).1 refl),
        λ j other. rw (get-insert s e j, ne→== j (insert s e).1 other),
      )

  -- After `release` the number names no handle, the other handles stay, and the entry is handed back.
  pub get-release :
      (s : Store) (fh : ℕ)
      → let (s', released) = Table.release S s fh in
        (get s' fh ≡ none) × (released ≡ get s fh) × ((j : ℕ) → j ≢ fh → get s' j ≡ get s j)
  unfolding Table.release
  get-release s fh = elim (Option-cases (get s fh)) [
    | inl missing ↦ rw (missing, Table.release) (missing, refl, λ j other. refl)
    | inr (e, found) ↦
        rw (found, Table.release)
          (
            rw (get-remove s fh fh, ==-of_eq fh fh refl),
            refl,
            λ j other. rw (get-remove s fh j, ne→== j fh other),
          )
  ]

  -- The last handle of an inode is gone exactly when no number names a handle on it.
  pub has_handles_iff :
      (s : Store) (inode : ℕ)
      → (Table.has_handles_for_inode S s inode ≡ true
          → (fh : ℕ) × (e : HandleEntry File) × (get s fh ≡ some e) × (e.inode ≡ inode))
        × ((fh : ℕ) (e : HandleEntry File)
            → get s fh ≡ some e
            → e.inode ≡ inode
            → Table.has_handles_for_inode S s inode ≡ true)
  unfolding Table.has_handles_for_inode
  has_handles_iff s inode = (
    λ h.
        let (fh, e, found, same) = any-found (λ e. e.inode == inode) s h in
        (fh, e, found, (==_iff e.inode inode).0 same),
    λ fh e found same. any-of_get _ s fh e found (==-of_eq e.inode inode same),
  )

  module _ (io : FileIo File) where
    pub get-write_other :
        (s : Store) (fh offset : ℕ) (input : List ℕ) (j : ℕ)
        → j ≢ fh
        → get (Table.write S io s fh offset input).0 j ≡ get s j
    unfolding Table.write
    get-write_other s fh offset input j other = elim (Option-cases (get s fh)) [
      | inl missing ↦ rw (missing, Table.write)
      | inr (e, found) ↦ rw (found, Table.write) (get-put_other s fh _ j other)
    ]

    get-write_self :
        (s : Store) (fh offset : ℕ) (input : List ℕ) (e : HandleEntry File)
        → get s fh ≡ some e
        → get (Table.write S io s fh offset input).0 fh ≡ some (write_entry io e offset input).0
    unfolding Table.write
    get-write_self s fh offset input e found =
        rw (found, Table.write) (get-put_self s fh e (write_entry io e offset input).0 found)

    -- `truncate_by_inode` cuts every handle of the inode, and leaves the handles of other inodes.
    pub get-truncate_by_inode :
        (s : Store) (inode size j : ℕ) (e : HandleEntry File)
        → get s j ≡ some e
        → get (Table.truncate_by_inode S io s inode size) j
          ≡ some (if e.inode == inode then truncate_entry io e size else e)
    unfolding Table.truncate_by_inode
    get-truncate_by_inode s inode size j e found = get-update _ s j ∙ ap (map_option _) found

    -- On readable files of at most 0x7ffff000 bytes that nothing else changes, a write of at most as many
    -- bytes that ends below 2^63 is read back: a read at its offset returns its bytes, on a handle that
    -- does not append; on one that does, they are found at the old end. The other handles read as before.
    pub read-write :
        (content : File → List ℕ)
        → IsQuiet io content
        → (s : Store) (fh offset : ℕ) (input : List ℕ) (e : HandleEntry File) → get s fh ≡ some e
        → IsFresh content e
        → start_of e.append (contents content e) offset + length input < 2 ^ 63
        → length input ≤ max_read
        → let at = start_of e.append (contents content e) offset in
          let s' = (Table.write S io s fh offset input).0 in
          (Table.read S io s' fh at (length input) ≡ some input)
          × ((j from size : ℕ)
              → j ≢ fh
              → Table.read S io s' j from size ≡ Table.read S io s j from size)
    unfolding Table.read
    read-write content quiet s fh offset input e found fresh h small =
        let at = start_of e.append (contents content e) offset in
        let wrote =
          contents-write_entry content io quiet e offset input fresh h (omega (arith, small)) in
        (
          rw (get-write_self s fh offset input e found, Table.read)
              (read_entry-contents content io quiet (write_entry io e offset input).0 at
                  (length input) small h
                ∙ ap some (
                    ap (λ xs. take (length input) (drop at xs)) wrote.0
                    ∙ pwrite-slice (contents content e) at input)),
          λ j from size other. rw (get-write_other s fh offset input j other, Table.read),
        )
