-- ===== src/InetSocket.antt =====
-- linux-c/socket/inet-socket: the set-up of TCP sockets, and the demo programs that use it with the
-- packets of `InetIo`.
mod Setup
mod Demo
mod Sockets
mod Listening
mod Programs
mod Failures
mod Tests
pub use Setup.*
pub use Demo.*
