-- ===== src/PageTable.antt =====
-- kernel-module/mm/page_table and linux-c/va-to-pa.c: physical addresses, from the page tables and
-- from /proc/PID/pagemap.
mod Walker
mod Request
mod Pagemap
mod Walk
mod Serving
mod Lookup
mod Tests
pub use Walker.*
pub use Request.*
pub use Pagemap.*
