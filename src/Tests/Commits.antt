-- ===== src/Tests/Commits.antt =====
-- Tests of commits: made of votes, and verified.
use leaderberry.Prelude.{◌*◌, ◌<◌, ◌≡◌, refl, false, ◌&&◌, some, none, pos, ◌≤ℤ◌}
use leaderberry.Types.Hash.{is_hash_empty, all_zero}
use leaderberry.Types.Vote.{Commit}
use leaderberry.Types.Validator.{two_thirds_majority}
use leaderberry.Types.Validator.Tally.{total, tally}
use leaderberry.Types.Commit.{verify_commit}
use leaderberry.Types.Commit.Signers.{is_signer, verify_commit_sound, verify_commit_overlap}
use leaderberry.Engine.VoteSet.{make_commit}
use leaderberry.Engine.VoteSet.Committing.{committed, make_commit-verify_commit, make_commit_total}
use leaderberry.Tests.Inputs.{
  letter_crypto, chain, block_x, block_y, two_validators, two_validators-WellFormed,
}
use leaderberry.Tests.Votes.{voted, voted_x-Counted, voted_y-Counted, x_quorum, y_quorum}

abbrev commit_x : Commit
commit_x = committed (voted block_x) block_x

abbrev commit_y : Commit
commit_y = committed (voted block_y) block_y

block_x_lem : is_hash_empty (some block_x) ≡ false
unfolding is_hash_empty all_zero
block_x_lem = refl

block_y_lem : is_hash_empty (some block_y) ≡ false
unfolding is_hash_empty all_zero
block_y_lem = refl

make_commit_total_example : make_commit (voted block_x) ≡ some commit_x
make_commit_total_example =
    make_commit_total letter_crypto (voted block_x) block_x voted_x-Counted refl block_x_lem
      x_quorum

make_y : make_commit (voted block_y) ≡ some commit_y
make_y =
    make_commit_total letter_crypto (voted block_y) block_y voted_y-Counted refl block_y_lem
      y_quorum

make_commit-verify_commit_example :
    verify_commit letter_crypto chain (some two_validators) block_x (pos 5) (some commit_x) ≡ none
make_commit-verify_commit_example =
    make_commit-verify_commit letter_crypto (voted block_x) commit_x voted_x-Counted
      make_commit_total_example

verify_y :
    verify_commit letter_crypto chain (some two_validators) block_y (pos 5) (some commit_y) ≡ none
verify_y = make_commit-verify_commit letter_crypto (voted block_y) commit_y voted_y-Counted make_y

verify_commit_sound_example :
    (commit_x.height ≡ pos 5)
    × (commit_x.block_hash ≡ block_x)
    × (two_thirds_majority two_validators
        ≤ℤ pos (
            tally
              (is_signer letter_crypto chain two_validators block_x commit_x commit_x.signatures)
              two_validators.validators))
verify_commit_sound_example =
    verify_commit_sound letter_crypto chain two_validators block_x commit_x (pos 5)
      two_validators-WellFormed make_commit-verify_commit_example

verify_commit_overlap_example :
    total two_validators.validators
    < 3
      * tally
          (λ i.
            is_signer letter_crypto chain two_validators block_x commit_x commit_x.signatures i
            && is_signer letter_crypto chain two_validators block_y commit_y commit_y.signatures i)
          two_validators.validators
verify_commit_overlap_example =
    verify_commit_overlap letter_crypto chain two_validators block_x block_y commit_x commit_y
      (pos 5) (pos 5) two_validators-WellFormed make_commit-verify_commit_example verify_y
