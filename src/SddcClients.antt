-- ===== src/SddcClients.antt =====
-- The clients of SDDC Manager whose functions are single REST calls.
pub mod Avn
pub mod Bundles
pub mod Cluster
pub mod ClusterOps
pub mod Credentials
pub mod Domain
pub mod EdgeClusters
pub mod Host
pub mod LicenseKeys
pub mod Manager
pub mod NetworkPools
pub mod Personalities
pub mod Releases
pub mod System
pub mod Upgrades
pub mod Users
pub mod Vcenters
pub mod VcfServices
pub mod Certificates
