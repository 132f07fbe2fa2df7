-- ===== src/SddcStates.antt =====
-- states/vcf_sddc_domain.py, states/vcf_sddc_host.py and states/vcf_sddc_manager.py.
pub mod Domain
pub mod Host
pub mod Manager
pub mod DryRun
pub mod Marking
