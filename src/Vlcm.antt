-- ===== src/Vlcm.antt =====
-- clients/esxi_vlcm.py: the client of vCenter's lifecycle manager for ESXi hosts.
pub mod Depots
pub mod Images
pub mod Lifecycle
