-- ===== src/Contracts.antt =====
-- packages/theword-contracts/tasks: the scripts that deploy the contracts.
pub mod Deploy
pub mod Populate
