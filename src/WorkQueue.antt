-- ===== src/WorkQueue.antt =====
-- kernel-module/kernel-tasks/work_queue_demo.c: a module that gives work to the kernel's workers and
-- keeps itself loaded by a reference for each.
pub mod Works
pub mod Lifetime
mod Tests
