-- ===== src/Memfs.antt =====
-- waterbox/memfs.h and waterbox/memfs.cpp: the filesystem that the machine carries in its memory.
pub mod Path
pub mod Node
pub mod Types
pub mod Resolve
pub mod File
pub mod Entries
pub mod Directory
pub mod Rpkg
pub mod Reach
mod Tests
