-- ===== src/Tests.antt =====
-- Runs of the definitions on concrete data, and the theorems at inputs that meet their hypotheses.
mod Median
mod Setting
mod Aggregator
mod Calls
mod Price
mod Oracle
mod Exchange
