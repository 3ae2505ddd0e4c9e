-- ===== src/Source.antt =====
-- The source plugin, plugins/source/src: fragments of a file and edits of it.
pub mod Fragment
pub mod Naming
pub mod Splice
pub mod Staging
pub mod Plan
pub mod SpanMap
pub mod Tests
