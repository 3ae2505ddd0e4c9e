-- ===== src/Fuse/Inodes/Tests.antt =====
-- Runs of the theorems on inode numbers at maps of two directories.
use native.Mathlib.Decide.{ℕ_discrete}
use mathlib.Core.HLevel.{×_discrete}
use nyne.Prelude.{ℕ, [], ◌∷◌}
use nyne.Fuse.Slab.{Slab}
use nyne.Fuse.Slab.Vacant.{slots}
use nyne.Router.Node.{CachePolicy, ttl}
use nyne.Fuse.Inodes.{InodeEntry, InodeMap, new}
use nyne.Fuse.Inodes.Laws.Index.{IsIndexed}
use nyne.Fuse.Inodes.Laws.Moves.{ensure, rename, bind, resolve, run, run-IsIndexed}

abbrev keys : Discrete (ℕ × ℕ)
keys = ×_discrete ℕ_discrete ℕ_discrete

abbrev policy : ℕ → CachePolicy
policy node = ttl 5

abbrev table : Slab (InodeEntry ℕ ℕ ℕ)
table = slots

abbrev empty_map : InodeMap table
empty_map = new table

run-IsIndexed_example : IsIndexed table keys (
    run table keys policy empty_map
      (ensure 1 2 1 ∷ ensure 1 5 1 ∷ rename 1 2 1 5 1 ∷ bind 10 2 77 ∷ resolve 20 2 ∷ []))
run-IsIndexed_example =
    run-IsIndexed table keys policy
      (ensure 1 2 1 ∷ ensure 1 5 1 ∷ rename 1 2 1 5 1 ∷ bind 10 2 77 ∷ resolve 20 2 ∷ [])
