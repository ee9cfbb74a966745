-- ===== src/Disk.antt =====
-- include/disk and src/disk: pages of files, and what is kept in them.
pub mod File
pub mod IndexFile
pub mod Tuple
pub mod HeapPage
pub mod Heap
pub mod Clock
pub mod Bpm
pub mod Samples
mod Tests
