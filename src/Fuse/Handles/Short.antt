-- ===== src/Fuse/Handles/Short.antt =====
-- A first write whose read of the backing file is short (nyne/src/fuse/handles/mod.rs, `populate_from_fd`).
