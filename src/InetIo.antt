-- ===== src/InetIo.antt =====
-- linux-c/socket/inet-socket/inet_io.c and inet_io.h: packets of a type, a length and a value over
-- a stream. `Metadata` has the layout of the packet's head, `Packet` the functions.
mod Metadata
mod Packet
mod Layout
mod Memory
mod Transfer
mod EndToEnd
mod Tests
unfoldable pub use Metadata.*
unfoldable pub use Packet.*
