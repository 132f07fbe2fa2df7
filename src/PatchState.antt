-- ===== src/PatchState.antt =====
-- states/vcf_vc_patch.py: the states that patch a vCenter appliance.
pub mod Ret
pub mod Redact
pub mod Repository
pub mod Prepare
pub mod Install
pub mod RedactLaws
pub mod DryRun
pub mod Staging
pub mod Failing
