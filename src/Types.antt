-- ===== src/Types.antt =====
-- api/types: the desired-state schema and the checks that stand beside it.
pub mod Networking
pub mod Mtu
pub mod Job
mod Examples
pub mod StorageNet
pub mod Runbook
pub mod Storage
pub mod Cluster
pub mod Vm
pub mod Host
pub mod Inventory
pub mod Meta
pub mod VmStatus
pub mod ClusterStatus
pub mod HostStatus
