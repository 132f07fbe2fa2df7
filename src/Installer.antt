-- ===== src/Installer.antt =====
-- utils/installer.py, the connection to the VCF Installer, and clients/installer_bringup.py.
pub mod Config
pub mod Session
pub mod Api
pub mod Caching
pub mod Retry
pub mod Renewal
pub mod Bringup
pub mod Reading
pub mod Ending
pub mod Outcomes
