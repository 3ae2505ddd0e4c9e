-- ===== src/Fuse/Ops/Tests.antt =====
-- Runs of the theorems on the request handlers: one dirty handle whose write is refused, and a directory that is
-- read by twos.
use Prim.Native.String.{String}
use native.Mathlib.Decide.{ℕ_discrete}
use mathlib.Core.HLevel.{×_discrete}
use nyne.Prelude.{
  arith, Bool, ltb, length, map, ℕ, suc, ◌≡◌, ◌≢◌, refl, false, Option, none, some, List, [], ◌∷◌,
}
use nyne.Fuse.Slab.{Slab}
use nyne.Fuse.Slab.Vacant.{slots}
use nyne.Fuse.Inodes.{InodeEntry, new}
use nyne.Fuse.Ops.Readdir.{DirEntry, DirNode, file, symlink, read_all}
use nyne.Fuse.Ops.Readdir.Paging.{shown, numbered, whole, read_all-numbered}
use nyne.Fuse.Handles.{HandleEntry, owned, preloaded, intact}
use nyne.Fuse.Handles.Flush.{final}
use nyne.Fuse.Handles.Table as Table
use nyne.Fuse.Ops.{FuseState, InodeState, write_error, release, flush_handle}
use nyne.Fuse.Ops.Release.{release-evict}

abbrev refused : String
refused = "parse error"

-- The world counts the writes that were tried.
abbrev refuse : ℕ → ℕ → List ℕ → ℕ × Option String
refuse tries ino bytes = (suc tries, some refused)

abbrev dirty_handle : HandleEntry ℕ
dirty_handle = record {
  inode = 7;
  buffer = owned (1 ∷ 2 ∷ []);
  source = preloaded;
  dirty_gen = 1;
  append = false;
  truncation = intact;
}

abbrev before : FuseState {File = ℕ} slots ℕ
before = record {
  handles = some dirty_handle ∷ [];
  inode_state = record { write_errors = (9, refused) ∷ []; atime_overrides = [] };
  world = 0;
}

last_one :
    Table.has_handles_for_inode slots
      (Table.release slots (flush_handle slots refuse before 7 0 final).0.handles 0).0
      7
    ≡ false
unfolding Table.has_handles_for_inode Table.release flush_handle Table.dirty_snapshot
    nyne.Fuse.Handles.dirty_snapshot nyne.Fuse.Ops.settle
last_one = refl

release-evict_example :
    let after = (release slots refuse before 7 0).inode_state in
    (write_error after 7 ≡ none)
    × ((j : ℕ) → j ≢ 7 → write_error after j ≡ write_error before.inode_state j)
release-evict_example = release-evict slots refuse before 7 0 last_one

-- A directory of three files, and a reply with room for two entries.
abbrev keys : Discrete (ℕ × ℕ)
keys = ×_discrete ℕ_discrete ℕ_discrete

abbrev inode_table : Slab (InodeEntry ℕ ℕ ℕ)
inode_table = slots

abbrev two_at_most : List (DirEntry ℕ) → DirEntry ℕ → Bool
two_at_most rs e = ltb 1 (length rs)

abbrev three_files : List (DirNode ℕ)
three_files =
    record { name = 11; kind = file }
    ∷ record { name = 12; kind = file }
    ∷ record { name = 13; kind = symlink }
    ∷ []

read_all-numbered_example :
    map shown (read_all inode_table keys two_at_most 0 1 6 (new inode_table) 5 1 three_files 0)
    ≡ numbered 1 (whole 0 1 three_files)
read_all-numbered_example =
    read_all-numbered inode_table keys two_at_most 5 1 0 1 (λ e. refl) 6 (new inode_table)
      three_files 0 (omega arith)
