-- ===== src/Sysfs.antt =====
-- kernel-module/sysfs: a device whose attributes show an entity, and a program that reads it.
pub mod Entity
pub mod DemoSysfs
pub mod Reader
pub mod Lifetime
pub mod Scanning
pub mod Shown
mod Tests
