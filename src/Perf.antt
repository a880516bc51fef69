-- ===== src/Perf.antt =====
-- linux-c/perf-count.c: counts of instructions and of TLB misses by perf events.
pub mod Counters
pub mod Groups
pub mod Releases
mod Tests
