-- ===== src/Lib.antt =====
-- Verification of leaderberry, a Byzantine fault tolerant consensus engine: validators vote in rounds on
-- one block for each height, and two thirds of the voting power decide.
--
-- The files model these parts of the Go program.
--
-- - Types/Hash: types/hash.go, and CopyHash of types/block.go.
-- - Types/Account: the names of types/account.go.
-- - Types/Authorization: VerifyAuthorization, cut into weigh and sign_weight, of types/account.go.
-- - Types/Vote: votes, commits and their signatures, of types/vote.go and types/generated/vote.go.
-- - Types/Validator: types/validator.go. NewValidatorSet is new_validator_set, TwoThirdsMajority is
--   two_thirds_majority, and Rotation has IncrementProposerPriority, Copy and GetProposerForRound.
-- - Types/Commit: VerifyCommit and VerifyCommitLight of types/vote.go.
-- - Types/BlockParts: the part sets that collect a block, and Merkle roots and proofs, of
--   types/block_parts.go. AddPart is add_part, which ends in place_part and store_part.
-- - Engine/VoteSet: VoteSet of engine/vote_tracker.go. AddVote is add_vote, addVoteInternal is
--   add_vote_internal with the helpers that it is cut into, and MakeCommit is make_commit.
-- - Engine/HeightVoteSet: HeightVoteSet of the same file, with the generation by which the vote sets of
--   an old height become stale.
-- - Engine/State: ConsensusState of engine/state.go. Updates has applyValidatorUpdates, Proposing, Voting,
--   Counting and Committing have the methods named Locked, as functions that end in _body, and Machine
--   has their run and the handlers of receiveRoutine.
-- - Engine/Timeouts: the durations of engine/timeout.go, and engine/config.go.
-- - Engine/PeerState: engine/peer_state.go.
-- - PrivVal/LastSign: CheckHRS of privval/signer.go.
-- - PrivVal/FilePv: the state file and the signing methods of privval/file_pv.go.
-- - PrivVal/History: a validator's life as a sequence of requests, failed writes, panics and restarts.
-- - Evidence/Pool and Evidence/CheckVote: evidence/pool.go. MarkCommitted is mark_committed, and CheckVote
--   is check_vote with the steps that it is cut into.
-- - Prelude: lists, integers, byte strings and association lists that the others share.
-- - Tests: runs of the model on concrete inputs.
--
-- The height vote set dispatches to the vote sets; a vote set reads its validator set and the signature
-- check; the commits that a vote set makes are what VerifyCommit checks on other nodes; the file signer
-- signs the votes, and the evidence pool compares them. The state machine calls all of these: it signs and
-- counts the node's own votes, counts those of its peers, locks on what the prevotes agree on, and hands
-- the block that the precommits agree on to the executor.
--
-- A method is a function on the record of its receiver that returns the new record and the result; a
-- critical section of a mutex is one call, and concurrent calls are sequences of calls. A pointer into a
-- slice or a map is the position or the key. An int64 is an integer of the model, and additions and
-- subtractions of int64 wrap around at 64 bits. A map is an association list with one entry per key. The
-- generation counter is a number below 2^64.
--
-- The Locked methods of the state machine call each other in a cycle. Each is a value of Call, and run
-- allows a depth of calls, its fuel; one that runs out is an outcome of its own, beside a return and a
-- panic. A depth of eleven is enough for every event, unless SkipTimeoutCommit is set: then the next height
-- begins within the call that ends the last, and a validator that is a quorum by itself goes on without an
-- end. The loop of a Merkle root has the number of hashes as
-- its fuel, which a level at least uses up by one. All other loops are over a list, or count down the number of rounds, of votes to remove or of bits.
--
-- The signer, the write-ahead log, the executor and the clock are interfaces of the state machine: a record
-- of functions on a world, Env, of which nothing is asked but where a theorem says so. A message that is
-- sent, written, scheduled or applied is an entry of a list of actions. The goroutines, channels and
-- callbacks of the state machine and of the timer are left out: the handlers run one event after the other.
--
-- Parameters of the model are Ed25519, SHA-256, JSON and the Cramberry encodings, which the repository
-- only calls, and the formats that fmt prints for the keys of the evidence pool. The proofs about the
-- signer and the part sets ask that a SHA-256 sum has 32 bytes and that JSON reads back the state file that it wrote, those
-- about CheckVote that different fields are printed as different keys.
--
-- Not modelled are engine.go, block sync and replay of engine, the write-ahead log's files, the
-- splitting of a block into parts and the bitmap of parts, the generated encodings, and the key and lock files of the signer.
pub mod Prelude
pub mod Types
pub mod Engine
pub mod PrivVal
pub mod Evidence
pub mod Tests
