-- ===== src/Config.antt =====
-- linux-c/config-demo: a configuration out of defaults, a file, the environment and the command
-- line.
mod Text
mod Sources
mod FileSource
mod Load
mod Layers
mod Priority
mod Keys
mod Settings
mod Lines
mod Reading
mod PreScan
mod Tests
unfoldable pub use Text.*
pub use Sources.*
pub use FileSource.*
pub use Load.*
pub use Keys.{text_eq_sound}
