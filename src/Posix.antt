-- ===== src/Posix.antt =====
-- The system calls and C library functions that the user programs under linux-c call: `Events` has
-- what a program has done so far, `Answers` the answers of the system, which are parameters,
-- `Strings` the C strings, and `Ending` the functions that may leave by `exit`.
mod Events
mod Answers
mod Strings
pub mod Ending
unfoldable pub use Events.*
unfoldable pub use Answers.*
unfoldable pub use Strings.*
