-- ===== src/Store.antt =====
-- agent/store/store.go
pub mod Bytes
pub mod Bolt
pub mod Journal
pub mod Order
pub mod Results
pub mod Desired
mod Examples
