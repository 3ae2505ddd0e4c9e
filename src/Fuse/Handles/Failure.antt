-- ===== src/Fuse/Handles/Failure.antt =====
-- A first write whose read of the backing file fails (nyne/src/fuse/handles/mod.rs, `write`).
use nyne.Prelude.{
  ℕ, ◌≡◌, ◌≢◌, refl, false, none, some, List, replicate, ne→==, Bool-cases, inl, inr,
}
use nyne.Fuse.Handles.{
  FileIo, BufferSource, direct_fd, preloaded, HandleEntry, as_bytes, done, buffered_read,
  is_pending, populate_from_fd, materialize, write_entry, read_entry, read_source,
}

module _ {File : Type 0} (io : FileIo File) where
  populate-failed :
      (fd : File) (n : ℕ) (buf : List ℕ)
      → io.size fd ≡ some n
      → n ≢ 0
      → io.read_at fd n 0 ≡ none
      → populate_from_fd io fd buf ≡ (replicate n 0, false)
  unfolding populate_from_fd
  populate-failed fd n buf sized filled broken =
      rw (sized, populate_from_fd, ne→== n 0 filled, broken)

  materialize-failed :
      (s : BufferSource File) (fd : File) (e : HandleEntry File) (n : ℕ)
      → s ≡ direct_fd fd
      → io.size fd ≡ some n
      → n ≢ 0
      → io.read_at fd n 0 ≡ none
      → let (e', ready) = materialize io s e in
        (ready ≡ false) × (e'.source ≡ preloaded) × (as_bytes e'.buffer ≡ replicate n 0)
  unfolding materialize
  materialize-failed s fd e n direct sized filled broken =
      rw (direct, populate-failed fd n (as_bytes e.buffer) sized filled broken, materialize)
        (refl, refl, refl)

  read_preloaded :
      (e : HandleEntry File) (from size : ℕ) {xs : List ℕ}
      → e.source ≡ preloaded
      → as_bytes e.buffer ≡ xs
      → read_entry io e from size ≡ some (buffered_read xs from size)
  unfolding read_entry
  read_preloaded e from size {xs} loaded same = read_of e.source loaded
    where
      read_of :
          (s : BufferSource File)
          → s ≡ preloaded
          → read_source io s e from size ≡ some (buffered_read xs from size)
      read_of s is_loaded = rw (is_loaded, same)

  -- The write reports the failure, and leaves a handle that no longer reads from its file: it holds as
  -- many zeros as the file has bytes, reads of it succeed and return those zeros.
  pub write_entry-failed :
      (fd : File) (e : HandleEntry File) (n offset : ℕ) (input : List ℕ)
      → e.source ≡ direct_fd fd
      → io.size fd ≡ some n
      → n ≢ 0
      → io.read_at fd n 0 ≡ none
      → let (e', result) = write_entry io e offset input in
        (result ≡ none)
        × ((from size : ℕ)
            → read_entry io e' from size ≡ some (buffered_read (replicate n 0) from size))
  unfolding write_entry
  write_entry-failed fd e n offset input direct sized filled broken =
      elim (Bool-cases (is_pending e.truncation)) [
        | inl eager ↦
            let lost =
              materialize-failed e.source fd (record e { truncation = done }) n direct sized filled
                broken in
            rw (eager, lost.0, write_entry)
              (refl, λ from size. read_preloaded _ from size lost.1 lost.2)
        | inr lazy ↦
            let lost = materialize-failed e.source fd e n direct sized filled broken in
            rw (lazy, lost.0, write_entry)
              (refl, λ from size. read_preloaded _ from size lost.1 lost.2)
      ]
