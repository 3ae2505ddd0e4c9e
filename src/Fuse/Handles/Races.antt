-- ===== src/Fuse/Handles/Races.antt =====
-- Interleavings of writes, truncations and flushes of one handle (`do_flush` of nyne/src/fuse/ops.rs):
-- what keeps the saved content and the buffer together, and the schedules that lose a write.
use Prim.Native.String.{String}
use nyne.Prelude.{
  ℕ, ◌+◌, ◌≤◌, ◌<◌, ◌^◌, ◌≡◌, ◌≢◌, refl, sym, ◌∙◌, false, not, ◌&&◌, Option, none, some, List, [],
  ◌∷◌, arith, length, get_elem?, ltb, Bool-cases, inl, inr, ◌⊎◌, zero, suc, ltb→lt, lt→ltb,
  ==-of_eq, ne→==,
}
use nyne.Fuse.Handles.{
  FileIo, preloaded, HandleEntry, as_bytes, is_empty, next_gen, DirtySnapshot, write_entry,
  truncate_entry, dirty_snapshot, clear_dirty, is_intact,
}
use nyne.Fuse.Handles.Flush.{
  FlushMode, final, is_eager, Session, Action, write, truncate, begin, commit, erase_idx,
  begin_flush, end_flush, start, finish, step, run,
}
use nyne.Fuse.Handles.Dirty.{source-write_entry, gen-truncate_entry}

module _ {File : Type 0} where
  -- At most one flush is under way. Its snapshot is no younger than the buffer, and holds the
  -- buffer's bytes as long as nothing was written since.
  abbrev pub Waiting : HandleEntry File → List DirtySnapshot → Type 0
  Waiting e [] = Unit {0}
  Waiting e (s ∷ []) =
      (0 < s.generation)
      × (s.generation ≤ e.dirty_gen)
      × (s.generation ≡ e.dirty_gen → s.bytes ≡ as_bytes e.buffer)
  Waiting e (s ∷ t ∷ rest) = ⊥

  -- A clean handle is saved.
  pub record IsSynced (st : Session File) : Type 0 where
    pub loaded : st.entry.source ≡ preloaded
    pub saved : st.entry.dirty_gen ≡ 0 → st.stored ≡ as_bytes st.entry.buffer
    pub waiting : Waiting st.entry st.in_flight

  -- Flushes one at a time, and writes of at least one byte.
  abbrev pub Allowed : Session File → Action → Type 0
  Allowed st (write offset input) = is_empty input ≡ false
  Allowed st (truncate size) = Unit {0}
  Allowed st (begin mode) = st.in_flight ≡ []
  Allowed st (commit i answer) = Unit {0}

  -- What `dirty_snapshot` takes of a dirty handle.
  abbrev pub snapshot : HandleEntry File → DirtySnapshot
  snapshot e = record {
    bytes = as_bytes e.buffer;
    generation = e.dirty_gen;
    was_truncated = not (is_intact e.truncation);
  }

  pub begin_cases :
      (mode : FlushMode) (e : HandleEntry File)
      → (begin_flush mode e ≡ none)
        ⊎ ((s : DirtySnapshot) × (begin_flush mode e ≡ some s)
            × (0 < s.generation)
            × (s.generation ≡ e.dirty_gen)
            × (s.bytes ≡ as_bytes e.buffer))
  unfolding begin_flush dirty_snapshot
  begin_cases mode e = elim (Bool-cases (ltb 0 e.dirty_gen)) [
    | inr clean ↦ inl (rw (clean, begin_flush))
    | inl dirty ↦
        elim (Bool-cases
          (is_eager mode && (is_empty (as_bytes e.buffer) && not (is_intact e.truncation)))) [
            | inl deferred ↦ inl (rw (dirty, begin_flush, deferred))
            | inr taken ↦
                inr (snapshot e, rw (dirty, begin_flush, taken), ltb→lt _ _ dirty, refl, refl)
          ]
  ]

  pub begin-final :
      (e : HandleEntry File) → 0 < e.dirty_gen → begin_flush final e ≡ some (snapshot e)
  unfolding begin_flush dirty_snapshot
  begin-final e dirty = rw (lt→ltb _ _ dirty, begin_flush)

  pub clear_dirty_self :
      (e : HandleEntry File) {n : ℕ}
      → e.dirty_gen ≡ n
      → clear_dirty e n ≡ record e { dirty_gen = 0 }
  unfolding clear_dirty
  clear_dirty_self e {n} same = rw (==-of_eq e.dirty_gen n same)

  clear_dirty_other : (e : HandleEntry File) (n : ℕ) → e.dirty_gen ≢ n → clear_dirty e n ≡ e
  unfolding clear_dirty
  clear_dirty_other e n differs = rw (ne→== e.dirty_gen n differs)

  module _ (io : FileIo File) where
    abbrev pub AllAllowed : Session File → List Action → Type 0
    AllAllowed st [] = Unit {0}
    AllAllowed st (a ∷ actions) = Allowed st a × AllAllowed (step io st a) actions

    next_gen_small :
        (generation : ℕ) → generation + 1 < 2 ^ 64 → next_gen generation ≡ generation + 1
    unfolding next_gen
    next_gen_small generation room = omega (arith, room)

    Waiting-raise :
        (e e' : HandleEntry File) (flights : List DirtySnapshot)
        → e.dirty_gen < e'.dirty_gen
        → Waiting e flights
        → Waiting e' flights
    Waiting-raise e e' [] h w = tt
    Waiting-raise e e' (s ∷ []) h w = (w.0, omega arith, λ same. absurd (omega arith))
    Waiting-raise e e' (s ∷ t ∷ rest) h w = w

    Waiting-keep :
        (e e' : HandleEntry File) (flights : List DirtySnapshot)
        → e'.dirty_gen ≡ e.dirty_gen
        → as_bytes e'.buffer ≡ as_bytes e.buffer
        → Waiting e flights
        → Waiting e' flights
    Waiting-keep e e' [] g b w = tt
    Waiting-keep e e' (s ∷ []) g b w = (w.0, omega arith, λ same. w.2 (same ∙ g) ∙ sym b)
    Waiting-keep e e' (s ∷ t ∷ rest) g b w = w

    write-IsSynced :
        (st : Session File) (offset : ℕ) (input : List ℕ)
        → is_empty input ≡ false
        → st.entry.dirty_gen + 1 < 2 ^ 64
        → IsSynced st
        → IsSynced (step io st (write offset input))
    unfolding step
    write-IsSynced st offset input some_bytes room v =
        let wrote = source-write_entry io st.entry offset input v.loaded some_bytes in
        elim wrote.1 [
          | inl raised ↦
              let next = next_gen_small st.entry.dirty_gen room in
              record {
                loaded = wrote.0;
                saved = λ clean. absurd (omega (arith, raised, next, clean));
                waiting =
                    Waiting-raise st.entry (write_entry io st.entry offset input).0 st.in_flight
                      (omega (arith, raised, next)) v.waiting;
              }
          | inr (same, kept) ↦ record {
            loaded = wrote.0;
            saved = λ clean. v.saved (sym kept ∙ clean) ∙ sym same;
            waiting =
                Waiting-keep st.entry (write_entry io st.entry offset input).0 st.in_flight kept
                  same v.waiting;
          }
        ]

    truncate-IsSynced :
        (st : Session File) (size : ℕ)
        → st.entry.dirty_gen + 1 < 2 ^ 64
        → IsSynced st
        → IsSynced (step io st (truncate size))
    unfolding step
    truncate-IsSynced st size room v =
        let cut = (gen-truncate_entry io st.entry size).0 v.loaded in
        elim cut.1 [
          | inl raised ↦
              let next = next_gen_small st.entry.dirty_gen room in
              record {
                loaded = cut.0 ∙ v.loaded;
                saved = λ clean. absurd (omega (arith, raised, next, clean));
                waiting =
                    Waiting-raise st.entry (truncate_entry io st.entry size) st.in_flight
                      (omega (arith, raised, next)) v.waiting;
              }
          | inr (same, kept) ↦ record {
            loaded = cut.0 ∙ v.loaded;
            saved = λ clean. v.saved (sym kept ∙ clean) ∙ sym same;
            waiting =
                Waiting-keep st.entry (truncate_entry io st.entry size) st.in_flight kept same
                  v.waiting;
          }
        ]

    -- `flights` stands for the field, so that a clause can match on it.
    begin_flights :
        (st : Session File) (mode : FlushMode) (flights : List DirtySnapshot)
        → flights ≡ []
        → IsSynced (record st { in_flight = flights })
        → IsSynced (step io (record st { in_flight = flights }) (begin mode))
    unfolding step start
    begin_flights st mode (s ∷ rest) idle v = cc
    begin_flights st mode [] idle v = elim (begin_cases mode st.entry) [
      | inl nothing ↦ rw nothing v
      | inr (s, taken, dirty, same, bytes) ↦ rw taken (record {
        loaded = v.loaded;
        saved = v.saved;
        waiting = (dirty, omega arith, λ e. bytes);
      })
    ]

    clear-saved :
        (e : HandleEntry File) (s : DirtySnapshot)
        → Waiting e (s ∷ [])
        → (clear_dirty e s.generation).dirty_gen ≡ 0
        → s.bytes ≡ as_bytes (clear_dirty e s.generation).buffer
    unfolding clear_dirty
    clear-saved e s w clean = ground arith

    clear-source : (e : HandleEntry File) (n : ℕ) → (clear_dirty e n).source ≡ e.source
    unfolding clear_dirty
    clear-source e n = ground arith

    commit_flights :
        (st : Session File) (i : ℕ) (answer : Option String) (flights : List DirtySnapshot)
        → IsSynced (record st { in_flight = flights })
        → IsSynced (step io (record st { in_flight = flights }) (commit i answer))
    unfolding step finish end_flush erase_idx
    commit_flights st i answer [] v = v
    commit_flights st zero none (s ∷ []) v = record {
      loaded = clear-source st.entry s.generation ∙ v.loaded;
      saved = clear-saved st.entry s v.waiting;
      waiting = tt;
    }
    commit_flights st zero (some message) (s ∷ []) v = record {
      loaded = v.loaded;
      saved = v.saved;
      waiting = tt;
    }
    commit_flights st (suc i) answer (s ∷ []) v = v
    commit_flights st i answer (s ∷ t ∷ rest) v = absurd v.waiting

    -- With flushes one at a time, writes of at least one byte, and a generation that does not wrap, every
    -- step keeps a clean handle saved, however flushes, writes, truncations and failures follow each other.
    step-IsSynced :
        (st : Session File) (a : Action)
        → Allowed st a
        → st.entry.dirty_gen + 1 < 2 ^ 64
        → IsSynced st
        → IsSynced (step io st a)
    step-IsSynced st (write offset input) allowed room v =
        write-IsSynced st offset input allowed room v
    step-IsSynced st (truncate size) allowed room v = truncate-IsSynced st size room v
    step-IsSynced st (begin mode) allowed room v = begin_flights st mode st.in_flight allowed v
    step-IsSynced st (commit i answer) allowed room v = commit_flights st i answer st.in_flight v

    start-gen :
        (o : Option DirtySnapshot) (st : Session File)
        → (start o st).entry.dirty_gen ≡ st.entry.dirty_gen
    unfolding start
    start-gen none st = refl
    start-gen (some s) st = refl

    clear_dirty-gen : (e : HandleEntry File) (n : ℕ) → (clear_dirty e n).dirty_gen ≤ e.dirty_gen
    unfolding clear_dirty
    clear_dirty-gen e n = ground arith

    finish-gen :
        (o : Option DirtySnapshot) (i : ℕ) (answer : Option String) (st : Session File)
        → (finish o i answer st).entry.dirty_gen ≤ st.entry.dirty_gen
    unfolding finish end_flush
    finish-gen none i answer st = omega arith
    finish-gen (some s) i none st = clear_dirty-gen st.entry s.generation
    finish-gen (some s) i (some message) st = omega arith

    -- A step raises the generation by one at most.
    step-gen :
        (st : Session File) (a : Action)
        → Allowed st a
        → st.entry.dirty_gen + 1 < 2 ^ 64
        → st.entry.source ≡ preloaded
        → (step io st a).entry.dirty_gen ≤ st.entry.dirty_gen + 1
    unfolding step
    step-gen st (write offset input) allowed room loaded =
        let next = next_gen_small st.entry.dirty_gen room in
        elim (source-write_entry io st.entry offset input loaded allowed).1 [
          | inl raised ↦ omega (arith, raised, next)
          | inr (same, kept) ↦ omega (arith, kept)
        ]
    step-gen st (truncate size) allowed room loaded =
        let next = next_gen_small st.entry.dirty_gen room in
        elim ((gen-truncate_entry io st.entry size).0 loaded).1 [
          | inl raised ↦ omega (arith, raised, next)
          | inr (same, kept) ↦ omega (arith, kept)
        ]
    step-gen st (begin mode) allowed room loaded =
        let w = start-gen (begin_flush mode st.entry) st in omega (arith, w)
    step-gen st (commit i answer) allowed room loaded =
        let w = finish-gen (get_elem? st.in_flight i) i answer st in omega (arith, w)

    -- Schedules of single flushes, writes of some bytes and truncations, too few for the generation to
    -- wrap, keep a loaded handle synced.
    pub run-IsSynced :
        (actions : List Action) (st : Session File)
        → AllAllowed st actions
        → st.entry.dirty_gen + length actions < 2 ^ 64
        → IsSynced st
        → IsSynced (run io st actions)
    unfolding run
    run-IsSynced [] st allowed few v = v
    run-IsSynced (a ∷ actions) st allowed few v =
        let room : st.entry.dirty_gen + 1 < 2 ^ 64 = omega (arith, few) in
        let raised = step-gen st a allowed.0 room v.loaded in
        run-IsSynced actions (step io st a) allowed.1 (omega (arith, few, raised))
          (step-IsSynced st a allowed.0 room v)

    -- Two flushes of a dirty loaded handle may hold snapshots at a time, with a write that changes the bytes
    -- and does not wrap the generation between them, and the one that was taken first may be written last.
    -- Then the handle counts as clean, and what is saved is not what it holds.
    pub run-stale :
        (st : Session File) (offset : ℕ) (input : List ℕ)
        → st.entry.source ≡ preloaded
        → 0 < st.entry.dirty_gen
        → st.entry.dirty_gen + 1 < 2 ^ 64
        → is_empty input ≡ false
        → as_bytes (write_entry io st.entry offset input).0.buffer ≢ as_bytes st.entry.buffer
        → let after =
            run io st (
              begin final
              ∷ write offset input
              ∷ begin final
              ∷ commit 0 none
              ∷ commit 0 none
              ∷ []) in
          (after.entry.dirty_gen ≡ 0) × (after.stored ≢ as_bytes after.entry.buffer)
    unfolding run step finish end_flush erase_idx start
    run-stale st offset input loaded dirty room some_bytes changed =
        let later = (write_entry io st.entry offset input).0 in
        let gone : 0 ≢ st.entry.dirty_gen = omega arith in
        let next = next_gen_small st.entry.dirty_gen room in
        let again : 0 < later.dirty_gen =
          elim (source-write_entry io st.entry offset input loaded some_bytes).1 [
            | inl raised ↦ omega (arith, raised, next)
            | inr (same, kept) ↦ absurd (changed same)
          ] in
        rw
          (
            begin-final st.entry dirty,
            begin-final later again,
            clear_dirty_self later refl,
            clear_dirty_other (record later { dirty_gen = 0 }) st.entry.dirty_gen gone,
          )
          (refl, λ same. changed (sym same))

    -- A generation is used again after a flush: a snapshot of the old use clears the mark of a write
    -- that no flush has saved.
    pub run-reused_generation :
        (st : Session File) (offset : ℕ) (input : List ℕ)
        → st.entry.source ≡ preloaded
        → st.entry.dirty_gen ≡ 1
        → is_empty input ≡ false
        → as_bytes (write_entry io (record st.entry { dirty_gen = 0 }) offset input).0.buffer
          ≢ as_bytes st.entry.buffer
        → let after =
            run io st (
              begin final
              ∷ begin final
              ∷ commit 0 none
              ∷ write offset input
              ∷ commit 0 none
              ∷ []) in
          (after.entry.dirty_gen ≡ 0) × (after.stored ≢ as_bytes after.entry.buffer)
    unfolding run step finish end_flush erase_idx start
    run-reused_generation st offset input loaded dirty some_bytes changed =
        let cleared : HandleEntry File = record st.entry { dirty_gen = 0 } in
        let later = (write_entry io cleared offset input).0 in
        let next : next_gen 0 ≡ 1 = next_gen_small 0 (omega arith) in
        let again : later.dirty_gen ≡ st.entry.dirty_gen =
          elim (source-write_entry io cleared offset input loaded some_bytes).1 [
            | inl raised ↦ raised ∙ next ∙ sym dirty
            | inr (same, kept) ↦ absurd (changed same)
          ] in
        rw
          (
            begin-final st.entry (omega arith),
            begin-final st.entry (omega arith),
            clear_dirty_self st.entry refl,
            clear_dirty_self later again,
          )
          (refl, λ same. changed (sym same))
