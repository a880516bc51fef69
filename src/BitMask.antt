-- ===== src/BitMask.antt =====
-- linux-c/sysfs-parser.c, which reads a list of CPUs from sysfs and turns it into a mask of bits.
pub mod Parser
pub mod Bits
pub mod Suffixes
pub mod Rounds
pub mod Printed
pub mod Ranges
pub mod Sysfs
pub mod Whole
mod Tests
