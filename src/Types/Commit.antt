-- ===== src/Types/Commit.antt =====
-- The commit checks of types/vote.go: VerifyCommit and VerifyCommitLight. `none` is a nil argument,
-- and the result `none` the nil error.
pub mod Signers
pub mod Accept
use leaderberry.Prelude.{
  ℕ, Bool, true, false, not, ◌&&◌, Option, none, some, List, [], ◌∷◌, ℤ, pos, add64, ltb_ℤ, eqb_ℤ,
  ◌==◌, if◌then◌else◌, length, Bytes, lookup, insert, nat_key,
}
use leaderberry.Types.Hash.{Hash, is_hash_empty, hash_equal}
use leaderberry.Types.Vote.{
  Commit, CommitSig, Vote, Crypto, verify_vote_signature, vote_type_precommit,
}
use leaderberry.Types.Validator.{ValidatorSet, NamedValidator, get_by_index, two_thirds_majority}

pub data CommitError : Type 0 where
  nil_validator_set invalid_commit height_mismatch block_hash_mismatch no_signatures
        insufficient_vote_power invalid_commit_signature duplicate_commit_sig
        unknown_commit_validator :
      CommitError

pub data PowerResult : Type 0 where
  ok : ℤ → PowerResult
  err : CommitError → PowerResult

-- A signature counts only if it is for this block, which is not nil or empty.
abbrev pub is_for : Hash → Option Hash → Bool
is_for hash none = false
is_for hash (some h) = not (is_hash_empty (some h)) && hash_equal h hash

-- The vote that the signature is checked as.
unfoldable pub commit_vote : Commit → CommitSig → NamedValidator → Vote
commit_vote commit sig val = record {
  type' = vote_type_precommit;
  height = commit.height;
  round = commit.round;
  block_hash = sig.block_hash;
  timestamp = sig.timestamp;
  validator = val.name;
  validator_index = sig.validator_index;
  signature = sig.signature;
}

abbrev pub is_seen : Option Bool → Bool
is_seen none = false
is_seen (some b) = b

abbrev pub seen_before : List (ℕ × Bool) → ℕ → Bool
seen_before seen i = is_seen (lookup i seen)

-- The loop over the signatures: the seen validators, the power so far, and `step`, the part of the
-- body that comes after the duplicate check.
unfoldable pub sum_power :
    (ℤ → CommitSig → PowerResult) → List (ℕ × Bool) → ℤ → List CommitSig → PowerResult
sum_power step seen power [] = ok power
sum_power step seen power (sig ∷ sigs) =
    if seen_before seen sig.validator_index
    then err duplicate_commit_sig
    else elim (step power sig) [
      | err e ↦ err e
      | ok power' ↦ sum_power step (insert sig.validator_index true seen) power' sigs
    ]

abbrev pub reach : ValidatorSet → PowerResult → Option CommitError
reach vals (err e) = some e
reach vals (ok power) =
    if ltb_ℤ power (two_thirds_majority vals) then some insufficient_vote_power else none

-- The body of the loop of VerifyCommitLight, after the duplicate check.
unfoldable pub light_step : ValidatorSet → Hash → ℤ → CommitSig → PowerResult
light_step vals hash power sig =
    if not (is_for hash sig.block_hash)
    then ok power
    else elim (get_by_index vals sig.validator_index) [
      | none ↦ err unknown_commit_validator
      | some val ↦ ok (add64 power val.voting_power)
    ]

unfoldable pub verify_commit_light :
    Option ValidatorSet → Hash → ℤ → Option Commit → Option CommitError
verify_commit_light none hash height commit = some nil_validator_set
verify_commit_light (some vals) hash height none = some invalid_commit
verify_commit_light (some vals) hash height (some commit) =
    if not (eqb_ℤ commit.height height)
    then some height_mismatch
    else if not (hash_equal commit.block_hash hash)
    then some block_hash_mismatch
    else reach vals (sum_power (light_step vals hash) [] (pos 0) commit.signatures)

module _ (c : Crypto) (chain_id : Bytes) where
  -- The validator's signature on the vote that the commit stands for.
  unfoldable pub checked_power : Commit → CommitSig → ℤ → NamedValidator → PowerResult
  checked_power commit sig power val =
      if not (verify_vote_signature c chain_id (commit_vote commit sig val) val.public_key)
      then err invalid_commit_signature
      else ok (add64 power val.voting_power)

  -- The body of the loop of VerifyCommit, after the duplicate check.
  unfoldable pub commit_step : ValidatorSet → Hash → Commit → ℤ → CommitSig → PowerResult
  commit_step vals hash commit power sig =
      if length sig.signature.data' == 0
      then ok power
      else if not (is_for hash sig.block_hash)
      then ok power
      else elim (get_by_index vals sig.validator_index) [
        | none ↦ err unknown_commit_validator
        | some val ↦ checked_power commit sig power val
      ]

  unfoldable pub verify_commit : Option ValidatorSet → Hash → ℤ → Option Commit → Option CommitError
  verify_commit none hash height commit = some nil_validator_set
  verify_commit (some vals) hash height none = some invalid_commit
  verify_commit (some vals) hash height (some commit) =
      if not (eqb_ℤ commit.height height)
      then some height_mismatch
      else if not (hash_equal commit.block_hash hash)
      then some block_hash_mismatch
      else if length commit.signatures == 0
      then some no_signatures
      else reach vals (sum_power (commit_step vals hash commit) [] (pos 0) commit.signatures)
