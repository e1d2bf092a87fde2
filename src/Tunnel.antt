-- ===== src/Tunnel.antt =====
-- Both sides together: tunnel/src/proxy.rs and tunnel/src/serve.rs over one data channel.
pub mod Termination
pub mod Keepalive
pub mod Woven
pub mod Shuffle
pub mod Handshake
pub mod Request
pub mod Requests
pub mod Response
pub mod Together
pub mod Refusals
pub mod Truncation
pub mod Exchange
pub mod Tasks
pub mod Session
