-- ===== src/VcenterClients.antt =====
-- The functions of the vCenter clients that are single REST calls.
pub mod Appliance
pub mod Appliances
pub mod Cluster
pub mod ComputePolicy
pub mod ContentLibrary
pub mod Datacenter
pub mod Datastore
pub mod Folder
pub mod Host
pub mod Kms
pub mod LcmDepot
pub mod LocalosUser
pub mod Network
pub mod ResourcePool
pub mod Shell
pub mod Sso
pub mod StoragePolicy
pub mod Supervisor
pub mod SupervisorCompat
pub mod SupervisorService
pub mod SupervisorSoftware
pub mod Tag
pub mod TagCategory
pub mod Vm
pub mod VmClass
