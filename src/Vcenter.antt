-- ===== src/Vcenter.antt =====
-- utils/vcenter.py: the connection to vCenter.
pub mod Config
pub mod Session
pub mod Api
pub mod Task
pub mod Ending
pub mod TaskEnding
pub mod Reading
pub mod Caching
pub mod Outcomes
