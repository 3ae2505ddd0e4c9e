-- ===== src/Fuse/Handles.antt =====
-- One open file handle of nyne/src/fuse/handles/mod.rs: `HandleEntry` and the operations that
-- `HandleTable` performs on an entry. The backing file is a parameter: what `pread` and `fstat` answer
-- is given by `FileIo`, so that each call may see the file in another state. `usize` and `u64` are
-- natural numbers; `dirty_gen` wraps, as a release build does, and a buffer that would grow beyond
-- `isize::MAX` is a panic, which leaves the entry with the bytes that it has.
pub mod Bytes
pub mod Dirty
pub mod Failure
pub mod Flush
pub mod Races
pub mod Saving
pub mod Short
pub mod Table
pub mod Tests
use Prim.Native.Nat.{bit_and}
use nyne.Prelude.{
  usize_max, saturating_add, ℕ, ◌+◌, ◌-◌, ◌%◌, ◌^◌, min, ◌≡◌, Bool, true, false, not, ◌&&◌, ◌||◌,
  Option, none, some, List, [], ◌∷◌, ◌++◌, leb, ltb, ◌==◌, if◌then◌else◌, length, take, drop,
  replicate, slice,
}

-- `File` operations as the code calls them: bytes read for a size and an offset, and the length in
-- the file's metadata. `none` is an IO error.
pub record FileIo (File : Type 0) : Type 0 where
  pub read_at : File → ℕ → ℕ → Option (List ℕ)
  pub size : File → Option ℕ

pub record OpenMode : Type 0 where
  pub truncate : Bool
  pub append : Bool
  pub write_intent : Bool

-- The Linux values of the `libc` flags.
abbrev o_accmode : ℕ
o_accmode = 3

abbrev o_wronly : ℕ
o_wronly = 1

abbrev o_rdwr : ℕ
o_rdwr = 2

abbrev o_trunc : ℕ
o_trunc = 0o1000

abbrev o_append : ℕ
o_append = 0o2000

unfoldable pub parse : ℕ → OpenMode
parse flags =
    let accmode = bit_and flags o_accmode in
    record {
      truncate = not (bit_and flags o_trunc == 0);
      append = not (bit_and flags o_append == 0);
      write_intent = accmode == o_wronly || accmode == o_rdwr;
    }

pub data BufferSource (File : Type 0) : Type 0 where
  preloaded : BufferSource File
  direct_fd : File → BufferSource File
  truncated : File → BufferSource File
  materialized : File → BufferSource File

pub data ContentBuffer : Type 0 where
  shared : List ℕ → ContentBuffer
  owned : List ℕ → ContentBuffer

-- `TruncationState::None` is `intact`.
pub data TruncationState : Type 0 where
  intact pending done : TruncationState

pub data WriteOutcome : Type 0 where
  buffered : ℕ → WriteOutcome
  replacement : ℕ → WriteOutcome
  panicked : WriteOutcome

pub record DirtySnapshot : Type 0 where
  pub bytes : List ℕ
  pub generation : ℕ
  pub was_truncated : Bool

pub record HandleEntry (File : Type 0) : Type 0 where
  pub inode : ℕ
  pub buffer : ContentBuffer
  pub source : BufferSource File
  pub dirty_gen : ℕ
  pub append : Bool
  pub truncation : TruncationState

abbrev pub as_bytes : ContentBuffer → List ℕ
as_bytes (shared arc) = arc
as_bytes (owned vec) = vec

-- The copy-on-write step, on a buffer of either kind.
abbrev pub make_mut : ContentBuffer → List ℕ
make_mut (shared arc) = arc
make_mut (owned vec) = vec

abbrev pub is_empty {ℓ} : {A : Type ℓ} → List A → Bool
is_empty [] = true
is_empty (x ∷ xs) = false

abbrev pub is_pending : TruncationState → Bool
is_pending pending = true
is_pending _ = false

abbrev pub is_intact : TruncationState → Bool
is_intact intact = true
is_intact _ = false

-- `dirty_gen += 1` on a `u64`.
unfoldable pub next_gen : ℕ → ℕ
next_gen generation = (generation + 1) % 2 ^ 64

abbrev pub isize_max : ℕ
isize_max = 9223372036854775807

-- Whether `Vec::resize` panics: a vector has at most `isize::MAX` bytes.
unfoldable pub overflows : List ℕ → ℕ → Bool
overflows buf end = ltb (length buf) end && ltb isize_max end

-- `Vec::resize(end, 0)` behind the test `end > buf.len()`, where it does not panic.
unfoldable pub grow : List ℕ → ℕ → List ℕ
grow buf end = if ltb (length buf) end then buf ++ replicate (end - length buf) 0 else buf

-- `buf.get_mut(start..end)` and `copy_from_slice`.
unfoldable pub overwrite : List ℕ → ℕ → ℕ → List ℕ → List ℕ
overwrite buf start end input =
    if leb start end
    then (if leb end (length buf) then take start buf ++ (input ++ drop end buf) else buf)
    else buf

-- The read of the in-memory buffer.
unfoldable pub buffered_read : List ℕ → ℕ → ℕ → List ℕ
buffered_read bytes offset size =
    if leb (length bytes) offset
    then []
    else slice bytes offset (min (length bytes) (saturating_add offset size))

-- `u32::try_from(data.len()).ok()?` and the choice of the outcome.
unfoldable pub outcome : Bool → List ℕ → Option WriteOutcome
outcome eager input =
    if ltb (length input) (2 ^ 32)
    then some (if eager then replacement (length input) else buffered (length input))
    else none

module _ {File : Type 0} where
  -- The handle that `open` makes: the content is in memory.
  unfoldable pub new_buffered : ℕ → List ℕ → OpenMode → HandleEntry File
  new_buffered inode content mode =
      let content_was_nonempty = not (is_empty content) in
      record {
        inode = inode;
        buffer = if mode.truncate then owned [] else shared content;
        source = preloaded;
        dirty_gen = if mode.truncate && content_was_nonempty then 1 else 0;
        append = mode.append;
        truncation =
            if mode.truncate then (if content_was_nonempty then pending else done) else intact;
      }

  -- The handle that `open_direct` makes: the content is behind a file descriptor.
  unfoldable pub new_direct : ℕ → File → OpenMode → HandleEntry File
  new_direct inode file mode = record {
    inode = inode;
    buffer = owned [];
    source = if mode.truncate then truncated file else direct_fd file;
    dirty_gen = 0;
    append = mode.append;
    truncation = if mode.truncate then pending else intact;
  }

  -- Where a write of `n` bytes starts and ends.
  abbrev pub write_start : HandleEntry File → ℕ → ℕ
  write_start e offset = if e.append then length (as_bytes e.buffer) else offset

  abbrev pub write_end : HandleEntry File → ℕ → ℕ → ℕ
  write_end e offset n = saturating_add (write_start e offset) n

  -- The part of `write` behind the population of the buffer.
  unfoldable pub store : HandleEntry File → ℕ → List ℕ → HandleEntry File
  store e offset input =
      let start = write_start e offset in
      let end = write_end e offset (length input) in
      if overflows (as_bytes e.buffer) end
      then record e { buffer = owned (make_mut e.buffer) }
      else record e {
        buffer = owned (overwrite (grow (make_mut e.buffer) end) start end input);
        dirty_gen = if is_empty input then e.dirty_gen else next_gen e.dirty_gen;
      }

  -- The answer of that part.
  unfoldable pub store_outcome : Bool → HandleEntry File → ℕ → List ℕ → Option WriteOutcome
  store_outcome eager e offset input =
      if overflows (as_bytes e.buffer) (write_end e offset (length input))
      then some panicked
      else outcome eager input

  unfoldable pub dirty_snapshot : HandleEntry File → Option DirtySnapshot
  dirty_snapshot e =
      if ltb 0 e.dirty_gen
      then some (record {
        bytes = as_bytes e.buffer;
        generation = e.dirty_gen;
        was_truncated = not (is_intact e.truncation);
      })
      else none

  unfoldable pub clear_dirty : HandleEntry File → ℕ → HandleEntry File
  clear_dirty e snapshot_gen = if e.dirty_gen == snapshot_gen then record e { dirty_gen = 0 } else e

  module _ (io : FileIo File) where
    -- `fd.read_at` into a zeroed buffer of `n` bytes, then `truncate` to the count that was read.
    -- On an error the zeroed buffer stays.
    read_whole : Option (List ℕ) → ℕ → List ℕ × Bool
    read_whole none n = (replicate n 0, false)
    read_whole (some got) n = (got, true)

    -- The new buffer, and whether the call succeeded.
    unfoldable pub populate_from_fd : File → List ℕ → List ℕ × Bool
    unfolding read_whole
    populate_from_fd fd buf = elim (io.size fd) [
      | none ↦ (buf, false)
      | some n ↦ if n == 0 then (buf, true) else read_whole (io.read_at fd n 0) n
    ]

    -- The first write to a direct handle. The flag is false where the write gives up: the source has
    -- been taken out by then, and `Preloaded` stands in its place.
    unfoldable pub materialize : BufferSource File → HandleEntry File → HandleEntry File × Bool
    materialize preloaded e = (e, true)
    materialize (materialized fd) e = (e, true)
    materialize (truncated fd) e = (record e { source = materialized fd }, true)
    materialize (direct_fd fd) e =
        let (buf, read) = populate_from_fd fd (make_mut e.buffer) in
        if read
        then (record e { buffer = owned buf; source = materialized fd }, true)
        else (record e { buffer = owned buf; source = preloaded }, false)

    unfoldable pub write_entry :
        HandleEntry File → ℕ → List ℕ → HandleEntry File × Option WriteOutcome
    write_entry e offset input =
        let eager = is_pending e.truncation in
        let (e', ready) =
          materialize e.source (if eager then record e { truncation = done } else e) in
        if ready then (store e' offset input, store_outcome eager e' offset input) else (e', none)

    -- `none` is an IO error.
    unfoldable pub read_source : BufferSource File → HandleEntry File → ℕ → ℕ → Option (List ℕ)
    read_source (direct_fd fd) e offset size = io.read_at fd size offset
    read_source preloaded e offset size = some (buffered_read (as_bytes e.buffer) offset size)
    read_source (truncated fd) e offset size = some (buffered_read (as_bytes e.buffer) offset size)
    read_source (materialized fd) e offset size =
        some (buffered_read (as_bytes e.buffer) offset size)

    unfoldable pub read_entry : HandleEntry File → ℕ → ℕ → Option (List ℕ)
    unfolding read_source
    read_entry e offset size = read_source e.source e offset size

    -- What `truncate_entry` does before it cuts the buffer.
    unfoldable pub truncate_source : BufferSource File → HandleEntry File → ℕ → HandleEntry File
    truncate_source (direct_fd fd) e size =
        let buf =
          if ltb 0 size then owned (populate_from_fd fd (make_mut e.buffer)).0 else e.buffer in
        record e { buffer = buf; source = truncated fd; truncation = pending }
    truncate_source preloaded e size =
        if ltb size (length (as_bytes e.buffer))
        then record e { dirty_gen = next_gen e.dirty_gen; truncation = pending }
        else e
    truncate_source (truncated fd) e size = e
    truncate_source (materialized fd) e size = e

    unfoldable pub truncate_entry : HandleEntry File → ℕ → HandleEntry File
    truncate_entry e size =
        let e' = truncate_source e.source e size in
        record e' { buffer = owned (take size (make_mut e'.buffer)) }
