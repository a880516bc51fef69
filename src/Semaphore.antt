-- ===== src/Semaphore.antt =====
-- kernel-module/semaphore/semaphore_demo.c: kernel threads that race for a semaphore. `Racers` has
-- the threads and the module's init, interleaved by a schedule.
mod Racers
mod Holders
mod Exclusion
mod Early
mod Abort
mod Progress
mod Tests
pub use Racers.*
