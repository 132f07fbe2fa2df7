-- ===== src/Vrli.antt =====
-- utils/vrli.py, the connection to the log server.
pub mod Config
pub mod Session
pub mod Api
pub mod Freshness
pub mod Retry
