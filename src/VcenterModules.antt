-- ===== src/VcenterModules.antt =====
-- The execution modules of vCenter, which call its clients.
pub mod Appliance
pub mod Cluster
pub mod ComputePolicy
pub mod ContentLibrary
pub mod Datacenter
pub mod Datastore
pub mod Folder
pub mod Host
pub mod Kms
pub mod LcmDepot
pub mod LocalosUser
pub mod Network
pub mod ResourcePool
pub mod Sso
pub mod StoragePolicy
pub mod Supervisor
pub mod SupervisorCompat
pub mod SupervisorService
pub mod SupervisorSoftware
pub mod Tag
pub mod TagCategory
pub mod Vm
pub mod VmClass
