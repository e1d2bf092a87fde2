-- ===== src/Proxy.antt =====
-- tunnel/src/proxy.rs: the consumer's side.
pub mod Utf8
pub mod Router
pub mod Delivery
pub mod Streams
pub mod Handshake
pub mod Request
pub mod Answer
pub mod Upload
pub mod Truncated
pub mod StreamIds
pub mod Begun
pub mod Client
pub mod Listen
