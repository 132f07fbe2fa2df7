-- ===== src/VcPatch.antt =====
-- clients/vc_patch.py: the client of vCenter's appliance update interface.
pub mod Errors
pub mod Updates
pub mod Matching
pub mod Resolve
pub mod Polling
pub mod Ending
pub mod Reading
pub mod Outcomes
pub mod Retries
pub mod MatchingLaws
pub mod ResolveLaws
