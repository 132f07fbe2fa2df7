-- ===== src/SddcModules.antt =====
-- The execution modules of SDDC Manager, which call its clients.
pub mod Confirming
pub mod Bundles
pub mod Certificates
pub mod Cluster
pub mod Credentials
pub mod Domain
pub mod Host
pub mod Manager
pub mod NetworkPools
pub mod Personalities
pub mod Releases
pub mod System
pub mod Upgrades
pub mod Vcenters
pub mod WorkloadDomain
pub mod VcfServices
