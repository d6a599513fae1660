-- ===== src/Evidence.antt =====
-- The package evidence: proofs that a validator has voted twice.
pub mod Pool
pub mod CheckVote
