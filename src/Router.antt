-- ===== src/Router.antt =====
-- Router/src/router: the IPv4 router.
pub mod Instance
pub mod Cksum
pub mod Frame
pub mod Interfaces
pub mod Hardware
pub mod Routes
pub mod ArpCache
pub mod Send
pub mod Arp
pub mod Icmp
pub mod Requests
pub mod Forward
pub mod Session
mod Examples
