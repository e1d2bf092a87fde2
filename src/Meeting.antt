-- ===== src/Meeting.antt =====
-- signal-server/src/index.ts and tunnel/src/rtc.rs together: two peers, the server between them, and
-- what each makes of what it hears.
pub mod Talk
pub mod Through
pub mod Room
pub mod Programs
