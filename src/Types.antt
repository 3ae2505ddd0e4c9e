-- ===== src/Types.antt =====
-- Plain values of the core crate: nyne/src/types.
pub mod Slice
