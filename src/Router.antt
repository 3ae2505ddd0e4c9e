-- ===== src/Router.antt =====
-- The routing layer of the file system: nyne/src/router.
pub mod Cache
pub mod Chain
pub mod Node
pub mod Tree
