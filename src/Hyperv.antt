-- ===== src/Hyperv.antt =====
-- The parts of agent/hyperv that are not PowerShell.
pub mod RawDisk
