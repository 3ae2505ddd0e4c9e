-- ===== src/Fuse/Handles/Bytes.antt =====
-- What a handle holds, seen as plain bytes, and the reads, writes and truncations of
-- nyne/src/fuse/handles/mod.rs against that view.
use nyne.Prelude.{
  saturating_add, ℕ, zero, suc, ◌+◌, ◌-◌, ◌^◌, ◌≤◌, ◌<◌, min, ◌≡◌, refl, ap, sym, ◌∙◌, inl, inr,
  Bool, true, false, ◌&&◌, some, List, [], ◌∷◌, ◌++◌, arith, leb, ltb, if◌then◌else◌, length, take,
  drop, replicate, length-append, length-replicate, take_all, drop_all, take-append_le,
  take-append_ge, take-nil, append-nil, Bool-cases, le_total, le→leb, ltb→lt, lt→ltb, ◌==◌, subst₂,
  leb-false→lt, take-min, length-drop, length-take, drop-append_ge,
}
use native.Mathlib.Nat.{le_refl}
use nyne.Fuse.Handles.{
  is_pending, replacement, buffered, done, read_source, FileIo, BufferSource, preloaded, direct_fd,
  truncated, materialized, HandleEntry, as_bytes, grow, overwrite, buffered_read, outcome, store,
  store_outcome, overflows, write_end, isize_max, populate_from_fd, materialize, write_entry,
  read_entry, truncate_source, truncate_entry,
}

-- The most bytes that Linux transfers in one read.
abbrev pub max_read : ℕ
max_read = 2147479552

-- Regular files of at most that length, which are readable and which nothing else changes: `fstat` gives
-- the length, and a `pread` of no more than `max_read` bytes, from an offset that `off_t` can hold, is not
-- interrupted and gives the bytes from the offset, as many as are asked for and there.
pub record IsQuiet {File : Type 0} (io : FileIo File) (content : File → List ℕ) : Type 0 where
  pub reads :
      (fd : File) (n offset : ℕ)
      → n ≤ max_read
      → offset + n < 2 ^ 63
      → io.read_at fd n offset ≡ some (take n (drop offset (content fd)))
  pub sizes : (fd : File) → io.size fd ≡ some (length (content fd))
  pub small : (fd : File) → length (content fd) ≤ max_read

-- `pwrite` on plain bytes: a gap before the offset is filled with zeros.
abbrev pub pwrite : List ℕ → ℕ → List ℕ → List ℕ
pwrite xs offset input =
    take offset (xs ++ replicate (offset - length xs) 0)
    ++ (input ++ drop (offset + length input) xs)

length-eq_zero : (xs : List ℕ) → length xs ≡ 0 → xs ≡ []
length-eq_zero [] h = refl
length-eq_zero (x ∷ xs) h = absurd (omega arith)

take-replicate : (m n : ℕ) (a : ℕ) → m ≤ n → take m (replicate n a) ≡ replicate m a
take-replicate zero n a h = refl
take-replicate (suc m) zero a h = absurd (omega arith)
take-replicate (suc m) (suc n) a h = ap (◌∷◌ a) (take-replicate m n a (omega arith))

grow_room : (xs : List ℕ) (end : ℕ) → end ≤ length (grow xs end)
unfolding grow
grow_room xs end = ground (
  arith,
  length-append xs (replicate (end - length xs) 0),
  length-replicate {A = ℕ} (end - length xs) 0,
)

-- The zeros beyond the old end do not depend on how far the buffer grows.
take-pad :
    (xs : List ℕ) (offset end : ℕ)
    → offset ≤ end
    → take offset (xs ++ replicate (end - length xs) 0)
      ≡ take offset (xs ++ replicate (offset - length xs) 0)
take-pad xs offset end h = elim (le_total offset (length xs)) [
  | inl le ↦ take-append_le offset xs _ le ∙ sym (take-append_le offset xs _ le)
  | inr ge ↦
      take-append_ge offset xs _ ge
      ∙ (ap (◌++◌ xs) (
            shorter (end - length xs) (omega arith)
            ∙ sym (shorter (offset - length xs) (omega arith)))
          ∙ sym (take-append_ge offset xs _ ge))
]
  where
    shorter :
        (n : ℕ)
        → offset - length xs ≤ n
        → take (offset - length xs) (replicate n 0) ≡ replicate {A = ℕ} (offset - length xs) 0
    shorter n le = take-replicate (offset - length xs) n 0 le

take-grow :
    (xs : List ℕ) (offset end : ℕ)
    → offset ≤ end
    → take offset (grow xs end) ≡ take offset (xs ++ replicate (offset - length xs) 0)
unfolding grow
take-grow xs offset end h = elim (Bool-cases (ltb (length xs) end)) [
  | inl longer ↦ rw longer (take-pad xs offset end h)
  | inr fits ↦
      let none_left : offset - length xs ≡ 0 = ground arith in rw (fits, none_left, append-nil)
]

drop-grow : (xs : List ℕ) (end : ℕ) → drop end (grow xs end) ≡ drop end xs
unfolding grow
drop-grow xs end = elim (Bool-cases (ltb (length xs) end)) [
  | inl longer ↦ rw longer (
      drop_all end _ (
        omega (
          arith,
          length-append xs (replicate (end - length xs) 0),
          length-replicate {A = ℕ} (end - length xs) 0,
          ltb→lt _ _ longer,
        ))
      ∙ sym (drop_all end xs (ground arith)))
  | inr fits ↦ rw fits
]

-- What was written is found where it was written, and what stood before it is kept.
pub pwrite-slice :
    (xs : List ℕ) (offset : ℕ) (input : List ℕ)
    → take (length input) (drop offset (pwrite xs offset input)) ≡ input
pwrite-slice xs offset input =
    ap (take (length input)) (
      drop-append_ge offset before (input ++ drop (offset + length input) xs) (omega (arith, fills))
      ∙ ap (λ n. drop n (input ++ drop (offset + length input) xs)) {y = 0} (omega (arith, fills)))
    ∙ (take-append_le (length input) input (drop (offset + length input) xs) (le_refl _)
        ∙ take_all (length input) input (le_refl _))
  where
    before : List ℕ
    before = take offset (xs ++ replicate (offset - length xs) 0)

    fills : length before ≡ offset
    fills = omega (
      arith,
      length-take offset (xs ++ replicate (offset - length xs) 0),
      length-append xs (replicate (offset - length xs) 0),
      length-replicate {A = ℕ} (offset - length xs) 0,
    )

overwrite-grow :
    (xs : List ℕ) (offset end : ℕ) (input : List ℕ)
    → end ≡ offset + length input
    → overwrite (grow xs end) offset end input ≡ pwrite xs offset input
unfolding overwrite
overwrite-grow xs offset end input e =
    let room : leb end (length (grow xs end)) ≡ true = le→leb _ _ (grow_room xs end) in
    let order : leb offset end ≡ true = le→leb _ _ (omega arith) in
    rw (order, room, drop-grow xs end, take-grow xs offset end (omega arith), e)

buffered_read-slice :
    (xs : List ℕ) (offset size : ℕ)
    → offset + size < 2 ^ 64
    → buffered_read xs offset size ≡ take size (drop offset xs)
unfolding buffered_read
buffered_read-slice xs offset size h = elim (Bool-cases (leb (length xs) offset)) [
  | inl past ↦ rw (past, drop_all offset xs (ground arith)) (sym (take-nil size))
  | inr inside ↦
      let n : min (length xs) (saturating_add offset size) - offset
          ≡ min size (length (drop offset xs)) =
        omega (arith, length-drop offset xs, leb-false→lt _ _ inside) in
      rw (inside, n) (take-min size (drop offset xs))
]

outcome_lem :
    (eager : Bool) (input : List ℕ)
    → length input < 2 ^ 32
    → outcome eager input
      ≡ some (if eager then replacement (length input) else buffered (length input))
unfolding outcome
outcome_lem eager input h = rw (lt→ltb _ _ h)

-- Where a write goes: `O_APPEND` ignores the offset.
abbrev pub start_of : Bool → List ℕ → ℕ → ℕ
start_of append xs offset = if append then length xs else offset

module _ {File : Type 0} (content : File → List ℕ) where
  -- What the handle holds: the file until the first write or truncation, the buffer from then on.
  abbrev pub held : BufferSource File → List ℕ → List ℕ
  held (direct_fd fd) xs = content fd
  held preloaded xs = xs
  held (truncated fd) xs = xs
  held (materialized fd) xs = xs

  abbrev pub contents : HandleEntry File → List ℕ
  contents e = held e.source (as_bytes e.buffer)

  -- The buffer of a handle that still reads from its file has not been used.
  abbrev pub UnusedBuffer : BufferSource File → List ℕ → Type 0
  UnusedBuffer (direct_fd fd) xs = xs ≡ []
  UnusedBuffer preloaded xs = Unit {0}
  UnusedBuffer (truncated fd) xs = Unit {0}
  UnusedBuffer (materialized fd) xs = Unit {0}

  abbrev pub IsFresh : HandleEntry File → Type 0
  IsFresh e = UnusedBuffer e.source (as_bytes e.buffer)

  abbrev pub IsSettled : BufferSource File → Type 0
  IsSettled (direct_fd fd) = ⊥
  IsSettled preloaded = Unit {0}
  IsSettled (truncated fd) = Unit {0}
  IsSettled (materialized fd) = Unit {0}

  pub held_settled : (s : BufferSource File) (xs : List ℕ) → IsSettled s → held s xs ≡ xs
  held_settled (direct_fd fd) xs h = absurd h
  held_settled preloaded xs h = refl
  held_settled (truncated fd) xs h = refl
  held_settled (materialized fd) xs h = refl

  pub settled_unused : (s : BufferSource File) (xs : List ℕ) → IsSettled s → UnusedBuffer s xs
  settled_unused (direct_fd fd) xs h = absurd h
  settled_unused preloaded xs h = tt
  settled_unused (truncated fd) xs h = tt
  settled_unused (materialized fd) xs h = tt

  fits :
      (e : HandleEntry File) (offset : ℕ) (input : List ℕ)
      → start_of e.append (as_bytes e.buffer) offset + length input < 2 ^ 63
      → overflows (as_bytes e.buffer) (write_end e offset (length input)) ≡ false
  unfolding overflows
  fits e offset input h =
      within (length (as_bytes e.buffer))
        (saturating_add (start_of e.append (as_bytes e.buffer) offset) (length input))
        (omega (arith, h))
    where
      within : (n end : ℕ) → end ≤ isize_max → (ltb n end && ltb isize_max end) ≡ false
      within n end le = ground (arith, le)

  contents-store :
      (e : HandleEntry File) (offset : ℕ) (input : List ℕ)
      → IsSettled e.source
      → start_of e.append (as_bytes e.buffer) offset + length input < 2 ^ 63
      → contents (store e offset input)
        ≡ pwrite (as_bytes e.buffer) (start_of e.append (as_bytes e.buffer) offset) input
  unfolding store
  contents-store e offset input settled h = rw (fits e offset input h) (
      held_settled e.source _ settled
      ∙ overwrite-grow (as_bytes e.buffer) (start_of e.append (as_bytes e.buffer) offset) _ input
          (omega arith))

  pub contents-store_from :
      (m : HandleEntry File) (append : Bool) (offset : ℕ) (input xs : List ℕ)
      → as_bytes m.buffer ≡ xs
      → IsSettled m.source
      → m.append ≡ append
      → start_of append xs offset + length input < 2 ^ 63
      → contents (store m offset input) ≡ pwrite xs (start_of append xs offset) input
  contents-store_from m append offset input xs same settled mode h =
      subst₂
        (λ a ys.
          start_of a ys offset + length input < 2 ^ 63
          → contents (store m offset input) ≡ pwrite ys (start_of a ys offset) input)
        mode same (contents-store m offset input settled) h

  pub store-IsSettled :
      (m : HandleEntry File) (offset : ℕ) (input : List ℕ)
      → IsSettled m.source
      → IsSettled (store m offset input).source
  unfolding store
  store-IsSettled m offset input settled =
      elim (Bool-cases (overflows (as_bytes m.buffer) (write_end m offset (length input)))) [
        | inl panics ↦ rw panics settled
        | inr fit ↦ rw fit settled
      ]

  store_unused :
      (m : HandleEntry File) (offset : ℕ) (input : List ℕ)
      → IsSettled m.source
      → IsFresh (store m offset input)
  store_unused m offset input settled =
      settled_unused (store m offset input).source _ (store-IsSettled m offset input settled)

  pub store_outcome_lem :
      (m : HandleEntry File) (eager append : Bool) (offset : ℕ) (input xs : List ℕ)
      → as_bytes m.buffer ≡ xs
      → m.append ≡ append
      → start_of append xs offset + length input < 2 ^ 63
      → length input < 2 ^ 32
      → store_outcome eager m offset input
        ≡ some (if eager then replacement (length input) else buffered (length input))
  unfolding store_outcome
  store_outcome_lem m eager append offset input xs same mode h small =
      let room : start_of m.append (as_bytes m.buffer) offset + length input < 2 ^ 63 =
        subst₂ (λ a ys. start_of a ys offset + length input < 2 ^ 63) (sym mode) (sym same) h in
      rw (fits m offset input room) (outcome_lem eager input small)

  module _ (io : FileIo File) (quiet : IsQuiet io content) where
    populate_lem : (fd : File) → populate_from_fd io fd [] ≡ (content fd, true)
    unfolding populate_from_fd
    populate_lem fd =
        rw
          (
            quiet.sizes fd,
            populate_from_fd,
            quiet.reads fd (length (content fd)) 0 (quiet.small fd) (omega (arith, quiet.small fd)),
            take_all (length (content fd)) (content fd) (le_refl _),
          )
          (elim (Bool-cases (length (content fd) == 0)) [
            | inl none_there ↦
                rw (none_there, populate_from_fd)
                  (ap (λ xs. (xs, true)) (sym (length-eq_zero (content fd) (ground arith))))
            | inr some_there ↦ rw (some_there, populate_from_fd)
          ])

    -- After the first step of a write the buffer holds what the handle held, and is what reads see.
    materialize_lem :
        (s : BufferSource File) (e : HandleEntry File)
        → e.source ≡ s
        → UnusedBuffer s (as_bytes e.buffer)
        → let (e', ready) = materialize io s e in
          (ready ≡ true)
          × (as_bytes e'.buffer ≡ held s (as_bytes e.buffer))
          × IsSettled e'.source
          × (e'.append ≡ e.append)
    unfolding materialize
    materialize_lem preloaded e same fresh = (refl, refl, rw same tt, refl)
    materialize_lem (materialized fd) e same fresh = (refl, refl, rw same tt, refl)
    materialize_lem (truncated fd) e same fresh = (refl, refl, tt, refl)
    materialize_lem (direct_fd fd) e same fresh =
        let read : populate_from_fd io fd (as_bytes e.buffer) ≡ (content fd, true) =
          rw fresh (populate_lem fd) in
        rw (read, materialize) (refl, refl, tt, refl)

    pub contents-write_entry :
        (e : HandleEntry File) (offset : ℕ) (input : List ℕ)
        → IsFresh e
        → start_of e.append (contents e) offset + length input < 2 ^ 63
        → length input < 2 ^ 32
        → let (e', result) = write_entry io e offset input in
          (contents e' ≡ pwrite (contents e) (start_of e.append (contents e) offset) input)
          × IsFresh e'
          × (result
              ≡ some (
                  if is_pending e.truncation
                  then replacement (length input)
                  else buffered (length input)))
    unfolding write_entry
    contents-write_entry e offset input fresh h small =
        elim (Bool-cases (is_pending e.truncation)) [
          | inl eager ↦
              let m = materialize_lem e.source (record e { truncation = done }) refl fresh in
              rw (eager, m.0, write_entry)
                (
                  contents-store_from _ e.append offset input _ m.1 m.2 m.3 h,
                  store_unused _ offset input m.2,
                  store_outcome_lem _ true e.append offset input _ m.1 m.3 h small,
                )
          | inr lazy ↦
              let m = materialize_lem e.source e refl fresh in
              rw (lazy, m.0, write_entry)
                (
                  contents-store_from _ e.append offset input _ m.1 m.2 m.3 h,
                  store_unused _ offset input m.2,
                  store_outcome_lem _ false e.append offset input _ m.1 m.3 h small,
                )
        ]

    -- A read returns the held bytes from the offset on, as many as are asked for and there.
    pub read_entry-contents :
        (e : HandleEntry File) (offset size : ℕ)
        → size ≤ max_read
        → offset + size < 2 ^ 63
        → read_entry io e offset size ≡ some (take size (drop offset (contents e)))
    unfolding read_entry
    read_entry-contents e offset size le h = read_from e.source
      where
        read_from :
            (s : BufferSource File)
            → read_source io s e offset size
              ≡ some (take size (drop offset (held s (as_bytes e.buffer))))
        read_from (direct_fd fd) = quiet.reads fd size offset le h
        read_from preloaded = ap some (buffered_read-slice _ offset size (omega (arith, h)))
        read_from (truncated fd) = ap some (buffered_read-slice _ offset size (omega (arith, h)))
        read_from (materialized fd) = ap some (buffered_read-slice _ offset size (omega (arith, h)))

    truncate_source_lem :
        (s : BufferSource File) (e : HandleEntry File) (size : ℕ)
        → e.source ≡ s
        → UnusedBuffer s (as_bytes e.buffer)
        → let e' = truncate_source io s e size in
          IsSettled e'.source
          × (take size (as_bytes e'.buffer) ≡ take size (held s (as_bytes e.buffer)))
    unfolding truncate_source
    truncate_source_lem (direct_fd fd) e zero same fresh = (tt, refl)
    truncate_source_lem (direct_fd fd) e (suc n) same fresh =
        let read : populate_from_fd io fd (as_bytes e.buffer) ≡ (content fd, true) =
          rw fresh (populate_lem fd) in
        (tt, rw (lt→ltb 0 (suc n) (omega arith), read))
    truncate_source_lem (truncated fd) e size same fresh = (rw same tt, refl)
    truncate_source_lem (materialized fd) e size same fresh = (rw same tt, refl)
    truncate_source_lem preloaded e size same fresh =
        elim (Bool-cases (ltb size (length (as_bytes e.buffer)))) [
          | inl shorter ↦ rw shorter (rw same tt, refl)
          | inr longer ↦ rw longer (rw same tt, refl)
        ]

    -- On readable files of at most 0x7ffff000 bytes that nothing else changes, a truncation cuts the held
    -- bytes, and leaves content that is no longer than the size as it is.
    pub contents-truncate_entry :
        (e : HandleEntry File) (size : ℕ)
        → IsFresh e
        → (contents (truncate_entry io e size) ≡ take size (contents e))
          × IsFresh (truncate_entry io e size)
    unfolding truncate_entry
    contents-truncate_entry e size fresh =
        let cut = truncate_source_lem e.source e size refl fresh in
        (held_settled _ _ cut.0 ∙ cut.1, settled_unused _ _ cut.0)
