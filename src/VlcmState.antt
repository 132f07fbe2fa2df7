-- ===== src/VlcmState.antt =====
-- states/vcf_esxi_vlcm.py: the states that patch the ESXi hosts of a cluster. Their `_ret` and
-- `_fail` are those of states/vcf_vc_patch.py, in PatchState.Ret.
pub mod Settings
pub mod Values
pub mod Attempt
pub mod Depot
pub mod Importing
pub mod Image
pub mod Policy
pub mod Matching
pub mod Step
pub mod DryRun
pub mod Landing
pub mod Landed
pub mod Finding
pub mod Present
