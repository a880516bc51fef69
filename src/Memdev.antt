-- ===== src/Memdev.antt =====
-- kernel-module/memdev/memdev.c, the character device that maps kernel pages to user space:
-- `State` has the records of the driver and of what it takes from the kernel, `Regions` the lists
-- of files and regions, `Ops` the file and VMA operations, `Setup` the module's init and exit.
mod State
mod Regions
mod Ops
mod Setup
mod Lookup
mod Balance
mod Lifetime
mod Mapping
mod Unwinding
mod Tests
mod Ledger
mod Freeing
unfoldable pub use State.*
unfoldable pub use Regions.*
unfoldable pub use Ops.*
unfoldable pub use Setup.*
