-- ===== src/Service.antt =====
-- agent/service/runner.go
pub mod Delivery
pub mod Results
pub mod Holds
mod Examples
pub mod Generations
