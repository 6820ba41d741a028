-- ===== src/Reconcile.antt =====
-- The reconcile loop of agent/reconcile.
pub mod Transient
pub mod CoreGroup
pub mod Passes
mod Examples
