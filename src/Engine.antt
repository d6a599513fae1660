-- ===== src/Engine.antt =====
-- The package engine: the counting of votes that consensus rests on.
pub mod VoteSet
pub mod HeightVoteSet
pub mod State
pub mod Timeouts
pub mod PeerState
