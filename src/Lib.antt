-- ===== src/Lib.antt =====
-- Verification of nyne, a virtual file system over the symbols of source code.
--
-- The program's parts and the modules that model them:
--   * The FUSE bridge (nyne/src/fuse) keeps open file handles and inode numbers. Fuse.Handles
--     models handles/mod.rs: `HandleEntry` and its sources, buffers and truncation states; `write`,
--     `read`, `truncate` on an entry are `write_entry`, `read_entry`, `truncate_entry`, and
--     Fuse.Handles.Table lifts them to the table. Fuse.Handles.Flush models `do_flush` of ops.rs as
--     two steps, `begin_flush` before the write lock and `end_flush` under it, so that flushes of
--     several threads interleave. Fuse.Ops models the handlers `setattr`, `write`, `flush` and
--     `release` of ops.rs, each run alone, with inode_state.rs; Fuse.Ops.Readdir models `readdir`
--     with its offsets, on the nodes that the chain lists. The fuel of `read_all` counts the calls
--     of a reader; one more than there are entries is enough. Fuse.Inodes models inode_map/mod.rs,
--     with `ensure_inode` of ops.rs. The slab crate is the interface Fuse.Slab, which
--     Fuse.Slab.Vacant fills by a list of slots.
--   * The source plugin (plugins/source/src) edits files by symbol. Source.Fragment models
--     syntax/fragment.rs and, of syntax/mod.rs, the walk along a path, with the search by line in
--     Source.Fragment.Lines. Source.Naming models syntax/fs_mapping/mod.rs, which names fragments for
--     their paths. Source.Splice models edit/splice/mod.rs, Source.Plan edit/plan/mod.rs,
--     and Source.SpanMap syntax/span_map/mod.rs. A plan takes ranges from fragments and offsets
--     from the splice helpers; a span map gives fragments of compound files the ranges that a plan
--     needs. Source.Staging models edit/staging/mod.rs: `EditStaging` with its operations, and in
--     Source.Staging.Batch `BatchEditAction`, which runs a plan for each staged file.
--   * The diff plugin (plugins/diff/src/provider) applies edits of whole files that a source
--     computes: Diff models `apply_diff` and `apply_file_edits`. Staging is such a source; what
--     other requests do to its state while files are written is an argument, `meanwhile`.
--   * The visibility plugin (plugins/visibility/src) decides by process who sees virtual nodes:
--     Visibility models visibility_map/mod.rs with its cgroup sessions, and `truncate_comm` of
--     nyne/src/process/procfs.
--   * The router (nyne/src/router) resolves paths. Router.Tree models tree/mod.rs, the dispatch
--     of a request along a route tree, with the operations of pipeline/request.rs and the
--     accumulator of node/mod.rs; Router.Tree.Extension models tree/extension/mod.rs, and
--     Router.Node the slots of nodes of node/mod.rs with their merge, which Router.Tree takes as
--     an argument. Router.Tree.Build models `TreeBuilder::build`, which merges directories that
--     are registered several times. `dedup_dirs` recurs on trees that it has merged, so it runs on
--     fuel; `build` gives one more than the tree has entries, and no more is needed, since what is
--     merged below a directory has fewer entries than the tree. Router.Cache models the cache and
--     its generations in cache. Router.Chain models the order that `Chain::build` of
--     pipeline/chain.rs gives to providers: `topological_sort`, by Topo.
--   * The topological sort of items by keys and dependencies (nyne/src/topo.rs) is Topo.
--   * The diagnostics of language servers (plugins/lsp/src/session/diagnostic_store) are
--     Lsp.Diagnostics.
--   * The merge of configuration layers (nyne/src/deep_merge) is DeepMerge.
--   * Slice suffixes of file names (nyne/src/types/slice) are Types.Slice.
--
-- Prelude holds what these share: tests, lists and slices over native numbers, association lists.
--
-- Parameters stand for code outside the repository: the slab and rope crates (records of
-- operations with their documented laws), reads of the backing file (`FileIo`), the room in a
-- reply of the fuser crate, the validation and the write of a spliced file, `str::trim` as the
-- test for a blank line, the clock, the capabilities in the slots of nodes, the file system that
-- edits are written to (`Filesystem`), the decomposition and the check of a source text, the slug
-- of a heading, and what the kernel reports of processes (`Host`), and petgraph's `toposort`.
-- Texts are lists of bytes, and offsets from the parser stand on character boundaries. A panic is
-- an answer of the model. A read of the backing file may be short; the theorems on plain bytes
-- assume that one is not for up to 0x7ffff000 bytes, which is as much as Linux transfers at once.
-- Loops are recursion on the list they walk, or on the hops left in the walk of a process to its
-- ancestors; besides `dedup_dirs` and the printing of decimal numbers, which has more fuel than
-- digits, the reader `read_all` of a directory runs on fuel. `u64` generations of the cache wrap;
-- `usize` sums that saturate do so in the model. The counter of writes on a handle wraps as a
-- `u64`, that of staged operations as a `u32`; a buffer that would grow beyond `isize::MAX`
-- panics.
--
-- Not modelled: the other request handlers, the dispatch along the middleware chain,
-- decomposition by tree-sitter, the other plugins, configuration and the command line.
pub mod DeepMerge
pub mod Diff
pub mod Fuse
pub mod Lsp
pub mod Prelude
pub mod Router
pub mod Source
pub mod Topo
pub mod Types
pub mod Visibility
