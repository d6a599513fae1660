-- ===== src/Tests/Heights.antt =====
-- Tests of the height vote set.
use leaderberry.Prelude.{
  ◌≡◌, refl, true, some, List, [], ◌∷◌, pos, arith, lookup, insert, int_key, nat_key, bytes_key,
  ◌+ℤ◌, ◌-ℤ◌, bytes_eq, hex_encode, add64, sub64, wrap64,
}
use leaderberry.Types.Hash.{all_zero, copy_bytes, copy_hash, copy_public_key, is_hash_empty}
use leaderberry.Types.Account.{account_name_equal, copy_account_name}
use leaderberry.Types.Validator.{get_by_index, copy_validator, two_thirds_majority}
use leaderberry.Types.Vote.{copy_vote, verify_signature, vote_sign_bytes}
use leaderberry.Engine.VoteSet
use leaderberry.Engine.VoteSet.{VoteSet, err, stale_vote_set}
use leaderberry.Engine.HeightVoteSet
use leaderberry.Engine.HeightVoteSet.{
  HeightVoteSet, new_height_vote_set, new_vote_set_with_parent, vote_set_at, put_precommits,
  dispatch_vote,
}
use leaderberry.Engine.HeightVoteSet.Rounds.{IsOurs, IsSound}
use leaderberry.Engine.HeightVoteSet.History.{
  Call, adds, resets, step, run, run_new-IsSound, add_vote-stale,
}
use leaderberry.Tests.Inputs.{
  letter_crypto, chain, block_x, precommit, two_validators, two_validators-WellFormed,
}
use leaderberry.Tests.Votes.{voted}

abbrev one_vote : List Call
one_vote = adds (pos 1000) (precommit 97 0 (some block_x)) ∷ []

abbrev then_height_six : List Call
then_height_six = resets (pos 6) two_validators ∷ []

abbrev pub after_one_vote : HeightVoteSet
after_one_vote = run letter_crypto (new_height_vote_set chain (pos 5) two_validators) one_vote

run_new-IsSound_example : IsSound letter_crypto after_one_vote
run_new-IsSound_example =
    run_new-IsSound letter_crypto chain (pos 5) two_validators one_vote two_validators-WellFormed
      (tt, tt)

abbrev pub round_0 : VoteSet
round_0 = record (voted block_x) { has_parent = true }

pub round_0_lem : lookup (pos 0) after_one_vote.precommits ≡ some round_0
unfolding run lookup step HeightVoteSet.add_vote dispatch_vote new_height_vote_set put_precommits
    insert VoteSet.add_vote VoteSet.is_stale vote_set_at new_vote_set_with_parent VoteSet.matches
    VoteSet.new_vote_set ◌+ℤ◌ ◌-ℤ◌ VoteSet.add_vote_internal get_by_index VoteSet.block_hash_key
    VoteSet.check_existing VoteSet.check_validator VoteSet.count_vote VoteSet.counted_block
    VoteSet.store_vote VoteSet.votes_equal VoteSet.would_overflow bytes_eq hex_encode add64 sub64
    wrap64 account_name_equal copy_account_name all_zero copy_bytes copy_hash copy_public_key
    is_hash_empty copy_validator two_thirds_majority copy_vote verify_signature vote_sign_bytes
round_0_lem = refl

round_0-IsOurs : IsOurs letter_crypto after_one_vote (pos 0) (pos 2) round_0
round_0-IsOurs = run_new-IsSound_example.precommits_lem (pos 0) round_0 round_0_lem

generation_lem : after_one_vote.generation ≡ 0
unfolding run step HeightVoteSet.add_vote dispatch_vote new_height_vote_set put_precommits
generation_lem = refl

add_vote-stale_example :
    VoteSet.add_vote letter_crypto round_0
      (run letter_crypto after_one_vote then_height_six).generation
      (pos 1000)
      (precommit 98 1 (some block_x))
    ≡ (round_0, err stale_vote_set)
add_vote-stale_example =
    add_vote-stale letter_crypto after_one_vote then_height_six (pos 0) (pos 2) round_0 (pos 1000)
      (precommit 98 1 (some block_x)) round_0-IsOurs (omega (arith, generation_lem)) (omega arith)
      (omega arith)
