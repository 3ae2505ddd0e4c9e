-- ===== src/Lsp.antt =====
-- The language server plugin: plugins/lsp/src/session.
pub mod Diagnostics
