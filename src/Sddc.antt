-- ===== src/Sddc.antt =====
-- utils/sddc.py, the connection to SDDC Manager, and clients/sddc_tasks.py.
pub mod Config
pub mod Session
pub mod Api
pub mod Caching
pub mod Errors
pub mod Tasks
pub mod Ending
pub mod Outcomes
pub mod Succeeding
pub mod Reading
