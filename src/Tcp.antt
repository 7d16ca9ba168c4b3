-- ===== src/Tcp.antt =====
-- TCP/src: the transport layer STCP, the network layer below it, the calls of the application and
-- the programs on them.
pub mod Segment
pub mod Context
pub mod Transport
pub mod Checksum
pub mod Queue
pub mod Wire
pub mod Network
pub mod Api
pub mod FileTransfer
pub mod Listen
pub mod Descriptors
mod Examples
