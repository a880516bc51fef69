-- ===== src/Netlink.antt =====
-- kernel-module/netlink-generic: a family of generic netlink messages, and its two user programs.
-- `Messages` has the messages and their attributes, `GenlDemo` the kernel module, `Process` what the
-- two programs share, `Reporter` and `Listener` the programs.
mod Messages
mod GenlDemo
mod PortName
mod Process
mod Reporter
mod Listener
mod Reporting
mod Monitor
mod Rounds
mod Closing
mod Delivery
mod Packets
mod Tests
mod Notify
mod Numbering
mod Parallel
unfoldable pub use Messages.*
unfoldable pub use GenlDemo.*
