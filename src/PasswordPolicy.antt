-- ===== src/PasswordPolicy.antt =====
-- clients/sddc_manager_password_policy.py and states/vcf_sddc_manager_password_policy.py.
pub mod Client
pub mod State
pub mod RoundTrip
pub mod Effects
