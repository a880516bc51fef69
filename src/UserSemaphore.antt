-- ===== src/UserSemaphore.antt =====
-- linux-c/semaphore: POSIX semaphores between processes. `Utilities` is semaphore-utils.h, `Named` and
-- `Unnamed` are the two programs.
mod Utilities
mod Named
mod Unnamed
mod Handshake
mod Commands
mod Success
mod Tests
