-- ===== src/BringupState.antt =====
-- states/vcf_installer_bringup.py. Log lines and `__virtual__` are left out.
pub mod Steps
pub mod Complete
pub mod Reusing
pub mod Submitting
pub mod Confirmed
pub mod Ending
pub mod Bounds
