-- ===== src/UnixSocket.antt =====
-- linux-c/socket/unix-socket: the stream and datagram demos over UNIX sockets. `Exchange` has what
-- the four runs share, `Server` and `Client` the runs of server.c and client.c.
mod Exchange
mod Server
mod Client
mod Cleanup
mod Protocol
mod Messages
mod Datagram
mod Tests
unfoldable pub use Exchange.*
unfoldable pub use Server.*
unfoldable pub use Client.*
