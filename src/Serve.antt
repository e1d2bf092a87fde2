-- ===== src/Serve.antt =====
-- tunnel/src/serve.rs: the provider's side.
pub mod Url
pub mod UrlLaws
pub mod UrlTests
pub mod Respond
pub mod Stream
pub mod Run
pub mod Keyed
pub mod Assembly
pub mod Requests
