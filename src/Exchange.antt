-- ===== src/Exchange.antt =====
-- The exchange contract: exchange/src/lib.rs.
pub mod Api
pub mod Format
pub mod Contract
pub mod Charging
pub mod Settlement
pub mod Rates
