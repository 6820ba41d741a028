-- ===== src/Vmware.antt =====
-- The import of VMs from VMware, agent/vmware.
pub mod Copy
pub mod VmdkHeader
pub mod StreamVmdk
mod Examples
