-- ===== src/Fuse/Handles/Dirty.antt =====
-- When a handle of nyne/src/fuse/handles/mod.rs has unsaved writes, and what `do_flush` of
-- nyne/src/fuse/ops.rs makes of them when flushes and writes of one handle interleave.
use nyne.Prelude.{
  ℕ, ◌≡◌, ◌≢◌, refl, ◌∙◌, Bool, true, false, List, arith, ltb, length, take, Bool-cases, inl, inr,
  ◌⊎◌, take_all,
}
use nyne.Fuse.Handles.{
  FileIo, BufferSource, preloaded, direct_fd, truncated, materialized, HandleEntry, as_bytes,
  is_empty, is_pending, done, next_gen, overflows, write_end, store, materialize, write_entry,
  truncate_source, truncate_entry,
}

module _ {File : Type 0} where
  -- `HandleEntry::is_dirty`.
  unfoldable pub is_dirty : HandleEntry File → Bool
  is_dirty e = ltb 0 e.dirty_gen

  module _ (io : FileIo File) where
    cut_or_kept :
        (s : BufferSource File) (e : HandleEntry File) (size : ℕ)
        → let e' = truncate_source io s e size in
          (s ≡ preloaded
            → (e'.source ≡ e.source)
              × ((e'.dirty_gen ≡ next_gen e.dirty_gen)
                  ⊎ ((take size (as_bytes e'.buffer) ≡ as_bytes e.buffer)
                      × (e'.dirty_gen ≡ e.dirty_gen))))
          × (s ≢ preloaded → e'.dirty_gen ≡ e.dirty_gen)
    unfolding truncate_source
    cut_or_kept (truncated fd) e size = (λ same. cc, λ other. refl)
    cut_or_kept (materialized fd) e size = (λ same. cc, λ other. refl)
    cut_or_kept (direct_fd fd) e size = (λ same. cc, λ other. refl)
    cut_or_kept preloaded e size = (λ same. kept, λ other. absurd (other refl))
      where
        kept :
            let e' = truncate_source io preloaded e size in
            (e'.source ≡ e.source)
            × ((e'.dirty_gen ≡ next_gen e.dirty_gen)
                ⊎ ((take size (as_bytes e'.buffer) ≡ as_bytes e.buffer)
                    × (e'.dirty_gen ≡ e.dirty_gen)))
        kept = elim (Bool-cases (ltb size (length (as_bytes e.buffer)))) [
          | inl shorter ↦ rw shorter (refl, inl refl)
          | inr longer ↦ rw longer (refl, inr (take_all size _ (ground arith), refl))
        ]

    -- A truncation of a buffer that was loaded on open raises the generation, unless it leaves the
    -- bytes as they are; every other handle keeps its generation, whatever is cut.
    pub gen-truncate_entry :
        (e : HandleEntry File) (size : ℕ)
        → let e' = truncate_entry io e size in
          (e.source ≡ preloaded
            → (e'.source ≡ e.source)
              × ((e'.dirty_gen ≡ next_gen e.dirty_gen)
                  ⊎ ((as_bytes e'.buffer ≡ as_bytes e.buffer) × (e'.dirty_gen ≡ e.dirty_gen))))
          × (e.source ≢ preloaded → e'.dirty_gen ≡ e.dirty_gen)
    unfolding truncate_entry
    gen-truncate_entry e size = cut_or_kept e.source e size

    store_cases :
        (e : HandleEntry File) (offset : ℕ) (input : List ℕ)
        → is_empty input ≡ false
        → let e' = store e offset input in
          (e'.source ≡ e.source)
          × ((e'.dirty_gen ≡ next_gen e.dirty_gen)
              ⊎ ((as_bytes e'.buffer ≡ as_bytes e.buffer) × (e'.dirty_gen ≡ e.dirty_gen)))
    unfolding store
    store_cases e offset input some_bytes =
        elim (Bool-cases (overflows (as_bytes e.buffer) (write_end e offset (length input)))) [
          | inl panics ↦ rw panics (refl, inr (refl, refl))
          | inr fits ↦ rw (fits, some_bytes) (refl, inl refl)
        ]

    materialize-preloaded :
        (s : BufferSource File) (e : HandleEntry File)
        → s ≡ preloaded
        → materialize io s e ≡ (e, true)
    unfolding materialize
    materialize-preloaded s e same = rw same refl

    -- On such a handle a write of some bytes leaves the source as it is, and raises the generation,
    -- unless it panics and leaves the bytes as they are.
    pub source-write_entry :
        (e : HandleEntry File) (offset : ℕ) (input : List ℕ)
        → e.source ≡ preloaded
        → is_empty input ≡ false
        → let e' = (write_entry io e offset input).0 in
          (e'.source ≡ preloaded)
          × ((e'.dirty_gen ≡ next_gen e.dirty_gen)
              ⊎ ((as_bytes e'.buffer ≡ as_bytes e.buffer) × (e'.dirty_gen ≡ e.dirty_gen)))
    unfolding write_entry
    source-write_entry e offset input same some_bytes =
        elim (Bool-cases (is_pending e.truncation)) [
          | inl eager ↦
              let s = store_cases (record e { truncation = done }) offset input some_bytes in
              rw
                (
                  eager,
                  materialize-preloaded e.source (record e { truncation = done }) same,
                  write_entry,
                )
                (s.0 ∙ same, s.1)
          | inr lazy ↦
              let s = store_cases e offset input some_bytes in
              rw (lazy, materialize-preloaded e.source e same, write_entry) (s.0 ∙ same, s.1)
        ]
