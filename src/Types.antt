-- ===== src/Types.antt =====
-- The package types: the values that the consensus engine exchanges and their checks.
pub mod Hash
pub mod Account
pub mod Vote
pub mod Validator
pub mod Commit
pub mod Authorization
pub mod BlockParts
