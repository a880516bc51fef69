-- ===== src/MmShow.antt =====
-- kernel-module/mm/mm_show: which displays the module makes, and how a size is printed.
pub mod Sizes
mod Tests
