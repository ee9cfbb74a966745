-- ===== src/Utils.antt =====
-- include/utils and src/utils.
pub mod Serialize
pub mod Hash
pub mod CircularList
mod Tests
