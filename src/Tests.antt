-- ===== src/Tests.antt =====
-- Runs of the model on concrete inputs, and each theorem with hypotheses applied at one of them.
mod Inputs
mod Validators
mod Votes
mod Commits
mod Heights
mod Authorizations
mod Signing
mod Evidence
mod State
mod BlockParts
mod Peers
