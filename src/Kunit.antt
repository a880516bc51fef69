-- ===== src/Kunit.antt =====
-- kernel-module/kunit: the functions that the unit test demos test.
pub mod Functions
pub mod Arithmetic
mod Tests
