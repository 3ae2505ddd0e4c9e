-- ===== src/Fuse.antt =====
-- The FUSE bridge, nyne/src/fuse: file handles and inode numbers.
pub mod Slab
pub mod Handles
pub mod Inodes
pub mod Ops
