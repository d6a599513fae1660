-- ===== src/PrivVal.antt =====
-- The package privval: the validator that signs with a key and a state on disk.
pub mod LastSign
pub mod FilePv
pub mod History
