-- ===== src/Fuse/Handles/Saving.antt =====
-- What `do_flush` of nyne/src/fuse/ops.rs saves of a handle, and the truncations that it never saves.
use Prim.Native.String.{String}
use nyne.Prelude.{
  ℕ, ◌+◌, ◌^◌, length, ◌<◌, ◌≡◌, ◌≢◌, refl, ◌∙◌, ap, Option, none, some, List, [], ◌∷◌, arith, ltb,
  ltb→lt, Bool-cases, inl, inr,
}
use nyne.Fuse.Handles.{FileIo, preloaded, HandleEntry, as_bytes, truncate_entry, dirty_snapshot}
use nyne.Fuse.Handles.Flush.{
  FlushMode, final, Session, Action, truncate, begin, commit, erase_idx, begin_flush, end_flush,
  start, finish, do_flush, step, run,
}
use nyne.Fuse.Handles.Dirty.{gen-truncate_entry}
use nyne.Fuse.Handles.Races.{
  IsSynced, AllAllowed, run-IsSynced, begin_cases, begin-final, clear_dirty_self,
}

module _ {File : Type 0} where
  -- The two steps of a flush, with nothing between them, are the call.
  run-flush :
      (io : FileIo File) (st : Session File) (mode : FlushMode) (answer : Option String)
      → st.in_flight ≡ []
      → run io st (begin mode ∷ commit 0 answer ∷ []) ≡ do_flush mode answer st
  unfolding run step start finish erase_idx do_flush end_flush
  run-flush io st mode answer idle = elim (begin_cases mode st.entry) [
    | inl nothing ↦ rw (nothing, idle, do_flush)
    | inr (s, taken, _, _, _) ↦ rw (taken, do_flush)
  ]

  begin-clean :
      (mode : FlushMode) (e : HandleEntry File) → e.dirty_gen ≡ 0 → begin_flush mode e ≡ none
  unfolding begin_flush dirty_snapshot
  begin-clean mode e clean = ground arith

  -- A flush at release that succeeds leaves the handle clean with its bytes saved and no error; one
  -- that fails keeps the handle, and what was saved, and records the message.
  pub do_flush-final :
      (st : Session File)
      → 0 < st.entry.dirty_gen
      → (let after = do_flush final none st in
          (after.stored ≡ as_bytes st.entry.buffer)
          × (after.entry ≡ record st.entry { dirty_gen = 0 })
          × (after.write_error ≡ none))
        × ((message : String)
            → do_flush final (some message) st ≡ record st { write_error = some message })
  unfolding do_flush end_flush
  do_flush-final st dirty =
      rw (begin-final st.entry dirty, do_flush)
        ((refl, clear_dirty_self st.entry refl, refl), λ message. refl)

  module _ (io : FileIo File) where
    -- After any schedule of single flushes, writes and truncations on a handle that was loaded on
    -- open, too short for the generation to wrap, a release that succeeds leaves the bytes of the handle saved.
    pub release-run :
        (actions : List Action) (st : Session File)
        → AllAllowed io st actions
        → st.entry.dirty_gen + length actions < 2 ^ 64
        → IsSynced st
        → let before = run io st actions in
          let after = do_flush final none before in
          (after.stored ≡ as_bytes before.entry.buffer) × (after.entry.dirty_gen ≡ 0)
    unfolding do_flush
    release-run actions st allowed few v =
        released (run io st actions) (run-IsSynced io actions st allowed few v)
      where
        released :
            (before : Session File)
            → IsSynced before
            → let after = do_flush final none before in
              (after.stored ≡ as_bytes before.entry.buffer) × (after.entry.dirty_gen ≡ 0)
        released before w = elim (Bool-cases (ltb 0 before.entry.dirty_gen)) [
          | inl dirty ↦
              let done = (do_flush-final before (ltb→lt _ _ dirty)).0 in
              (done.0, ap (λ (e : HandleEntry File). e.dirty_gen) done.1)
          | inr clean ↦
              let zeroed : before.entry.dirty_gen ≡ 0 = ground arith in
              rw (begin-clean final before.entry zeroed, do_flush) (w.saved zeroed, zeroed)
        ]

    -- A clean handle on a backing file that is truncated, and not written afterwards, stays clean: no
    -- flush saves the truncation.
    pub do_flush-truncate :
        (st : Session File) (size : ℕ) (mode : FlushMode) (answer : Option String)
        → st.entry.source ≢ preloaded
        → st.entry.dirty_gen ≡ 0
        → do_flush mode answer (step io st (truncate size)) ≡ step io st (truncate size)
    unfolding do_flush step
    do_flush-truncate st size mode answer backed clean = rw (
      begin-clean mode (truncate_entry io st.entry size)
          ((gen-truncate_entry io st.entry size).1 backed ∙ clean),
      do_flush,
    )
