-- ===== src/Harness.antt =====
-- The two programs that run the machine and report what it did: waterbox/run-native.cpp, the native
-- reference, and waterbox/run-wbx.c, which drives the sandboxed machine through its exports.
pub mod Digest
pub mod Native
pub mod Wbx
pub mod Keys
pub mod Agree
mod Tests
