-- ===== src/Oracle.antt =====
-- The oracle contract: oracle/src/lib.rs and oracle_request.rs, with what it has to do with its
-- clients.
pub mod Contract
pub mod Nonces
pub mod Runs
pub mod Numbered
pub mod Spent
