-- ===== src/Scripts.antt =====
-- The operation scripts under smartContract/src, on a chain that runs the contract.
pub mod Setup
pub mod Provider
