-- ===== src/Index.antt =====
-- include/index and src/index: the B+tree index.
pub mod Key
pub mod Page
pub mod Codec
pub mod Serial
pub mod Order
pub mod Tree
mod Tests
