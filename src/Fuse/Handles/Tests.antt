-- ===== src/Fuse/Handles/Tests.antt =====
-- Runs of the theorems on file handles at a file on a disk that nothing else changes.
use nyne.Prelude.{
  ℕ, ◌≡◌, ◌≢◌, refl, ap, false, Option, none, some, List, [], ◌∷◌, length, take, drop, arith,
}
use nyne.Fuse.Slab.Vacant.{slots}
use nyne.Fuse.Handles.{
  FileIo, preloaded, direct_fd, shared, intact, HandleEntry, as_bytes, write_entry, overflows,
  truncate_entry, store, materialize, overwrite, outcome, grow,
}
use nyne.Fuse.Handles.Bytes.{IsQuiet, contents, IsFresh, contents-truncate_entry}
use nyne.Fuse.Handles.Flush.{Session, Action, write, begin, commit, final, step, run}
use nyne.Fuse.Handles.Races.{IsSynced, AllAllowed, run-IsSynced, run-stale}
use nyne.Fuse.Handles.Table as Table
use nyne.Fuse.Handles.Table.Laws.{get-release, read-write}

-- A disk with one file.
abbrev disk : ℕ → List ℕ
disk fd = 10 ∷ 20 ∷ 30 ∷ 40 ∷ []

abbrev disk_io : FileIo ℕ
disk_io = record {
  read_at = λ fd n offset. some (take n (drop offset (disk fd)));
  size = λ fd. some (length (disk fd));
}

quiet : IsQuiet disk_io disk
quiet = record { reads = λ fd n offset le h. refl; sizes = λ fd. refl; small = λ fd. omega arith }

abbrev direct_handle : HandleEntry ℕ
direct_handle = record {
  inode = 7;
  buffer = shared [];
  source = direct_fd 0;
  dirty_gen = 0;
  append = false;
  truncation = intact;
}

abbrev loaded_handle : ℕ → HandleEntry ℕ
loaded_handle generation = record {
  inode = 7;
  buffer = shared (10 ∷ 20 ∷ []);
  source = preloaded;
  dirty_gen = generation;
  append = false;
  truncation = intact;
}

abbrev session : HandleEntry ℕ → Session ℕ
session e = record { entry = e; stored = as_bytes e.buffer; write_error = none; in_flight = [] }

contents-truncate_entry_example :
    (contents disk (truncate_entry disk_io direct_handle 3) ≡ 10 ∷ 20 ∷ 30 ∷ [])
    × IsFresh disk (truncate_entry disk_io direct_handle 3)
contents-truncate_entry_example = contents-truncate_entry disk disk_io quiet direct_handle 3 refl

-- A read that gives two bytes at most.
abbrev short_io : FileIo ℕ
short_io = record disk_io { read_at = λ fd n offset. some (take 2 (drop offset (disk fd))) }

clean : IsSynced (session (loaded_handle 0))
clean = record { loaded = refl; saved = λ h. refl; waiting = tt }

abbrev write_and_flush : List Action
write_and_flush = write 0 (1 ∷ []) ∷ begin final ∷ commit 0 none ∷ []

allowed : AllAllowed disk_io (session (loaded_handle 0)) write_and_flush
unfolding step
allowed = (refl, (refl, (tt, tt)))

run-IsSynced_example : IsSynced (run disk_io (session (loaded_handle 0)) write_and_flush)
run-IsSynced_example =
    run-IsSynced disk_io write_and_flush (session (loaded_handle 0)) allowed (omega arith) clean

abbrev head : List ℕ → ℕ
head [] = 0
head (x ∷ xs) = x

changed :
    (generation : ℕ)
    → as_bytes (write_entry disk_io (loaded_handle generation) 0 (1 ∷ [])).0.buffer ≢ 10 ∷ 20 ∷ []
unfolding write_entry store overflows materialize overwrite outcome grow
changed generation h = let first : 1 ≡ 10 = ap (λ xs. head xs) h in absurd (omega (arith, first))

run-stale_example :
    let after =
      run disk_io
        (session (loaded_handle 1))
        (begin final ∷ write 0 (1 ∷ []) ∷ begin final ∷ commit 0 none ∷ commit 0 none ∷ []) in
    (after.entry.dirty_gen ≡ 0) × (after.stored ≢ as_bytes after.entry.buffer)
run-stale_example =
    run-stale disk_io (session (loaded_handle 1)) 0 (1 ∷ []) refl (omega arith) (omega arith) refl
      (changed 1)

abbrev one_handle : List (Option (HandleEntry ℕ))
one_handle = some direct_handle ∷ []

get-release_example :
    let (s', released) = Table.release slots one_handle 0 in
    (slots.get s' 0 ≡ none)
    × (released ≡ some direct_handle)
    × ((j : ℕ) → j ≢ 0 → slots.get s' j ≡ slots.get one_handle j)
get-release_example = get-release slots one_handle 0

read-write_example :
    let s' = (Table.write slots disk_io one_handle 0 1 (99 ∷ 98 ∷ [])).0 in
    (Table.read slots disk_io s' 0 1 2 ≡ some (99 ∷ 98 ∷ []))
    × ((j from size : ℕ)
        → j ≢ 0
        → Table.read slots disk_io s' j from size ≡ Table.read slots disk_io one_handle j from size)
read-write_example =
    read-write slots disk_io disk quiet one_handle 0 1 (99 ∷ 98 ∷ []) direct_handle refl refl
      (omega arith) (omega arith)
