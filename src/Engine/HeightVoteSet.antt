-- ===== src/Engine/HeightVoteSet.antt =====
-- The HeightVoteSet of engine/vote_tracker.go: the vote sets of all rounds of a height. A caller may
-- keep the pointer to a vote set that it got here; its `my_generation` says from before which Reset.
pub mod Rounds
pub mod History
pub mod Keeping
use leaderberry.Prelude.{
  ℕ, ◌+◌, ◌%◌, Bool, true, not, Option, none, some, List, [], ℤ, pos, eqb_ℤ, if◌then◌else◌, Bytes,
  lookup, insert, int_key,
}
use leaderberry.Types.Hash.{Hash}
use leaderberry.Types.Vote.{Vote, Crypto, vote_type_prevote, vote_type_precommit}
use leaderberry.Types.Validator.{ValidatorSet}
use leaderberry.Engine.VoteSet
use leaderberry.Engine.VoteSet.{VoteSet, Result, ok, err, invalid_height, invalid_vote}

pub record HeightVoteSet : Type 0 where
  pub chain_id : Bytes
  pub height : ℤ
  pub validator_set : ValidatorSet
  pub prevotes : List (ℤ × VoteSet)
  pub precommits : List (ℤ × VoteSet)
  pub generation : ℕ  -- uint64

unfoldable pub new_height_vote_set : Bytes → ℤ → ValidatorSet → HeightVoteSet
new_height_vote_set chain_id height vals = record {
  chain_id = chain_id;
  height = height;
  validator_set = vals;
  prevotes = [];
  precommits = [];
  generation = 0;
}

unfoldable pub new_vote_set_with_parent : HeightVoteSet → ℤ → ℤ → VoteSet
new_vote_set_with_parent hvs round vote_type =
    record (VoteSet.new_vote_set hvs.chain_id hvs.height round vote_type hvs.validator_set) {
      has_parent = true;
      my_generation = hvs.generation;
    }

-- The vote set of a round, or the new one that the code makes for it.
unfoldable pub vote_set_at : HeightVoteSet → List (ℤ × VoteSet) → ℤ → ℤ → VoteSet
vote_set_at hvs sets round vote_type = elim (lookup round sets) [
  | none ↦ new_vote_set_with_parent hvs round vote_type
  | some vs ↦ vs
]

unfoldable pub put_prevotes : HeightVoteSet → ℤ → VoteSet × Result → HeightVoteSet × Result
put_prevotes hvs round (vs, r) = (record hvs { prevotes = insert round vs hvs.prevotes }, r)

unfoldable pub put_precommits : HeightVoteSet → ℤ → VoteSet × Result → HeightVoteSet × Result
put_precommits hvs round (vs, r) = (record hvs { precommits = insert round vs hvs.precommits }, r)

-- AddVote and AddVoteForReplay up to the call of the vote set's method, `add`.
unfoldable pub dispatch_vote :
    (VoteSet → VoteSet × Result) → HeightVoteSet → Vote → HeightVoteSet × Result
dispatch_vote add hvs vote =
    if not (eqb_ℤ vote.height hvs.height)
    then (hvs, err invalid_height)
    else if eqb_ℤ vote.type' vote_type_prevote
    then put_prevotes hvs vote.round
        (add (vote_set_at hvs hvs.prevotes vote.round vote_type_prevote))
    else if eqb_ℤ vote.type' vote_type_precommit
    then put_precommits hvs vote.round
        (add (vote_set_at hvs hvs.precommits vote.round vote_type_precommit))
    else (hvs, err invalid_vote)

unfoldable pub prevotes_of : HeightVoteSet → ℤ → Option VoteSet
prevotes_of hvs round = lookup round hvs.prevotes

unfoldable pub precommits_of : HeightVoteSet → ℤ → Option VoteSet
precommits_of hvs round = lookup round hvs.precommits

unfoldable pub set_peer_maj23 : HeightVoteSet → Bytes → ℤ → ℤ → Option Hash → HeightVoteSet
set_peer_maj23 hvs peer_id round vote_type hash =
    if eqb_ℤ vote_type vote_type_prevote
    then record hvs {
      prevotes =
          insert round
            (VoteSet.set_peer_maj23 (vote_set_at hvs hvs.prevotes round vote_type_prevote) peer_id
              hash)
            hvs.prevotes;
    }
    else record hvs {
      precommits =
          insert round
            (VoteSet.set_peer_maj23 (vote_set_at hvs hvs.precommits round vote_type_precommit)
              peer_id hash)
            hvs.precommits;
    }

unfoldable pub reset : HeightVoteSet → ℤ → ValidatorSet → HeightVoteSet
reset hvs height vals = record {
  chain_id = hvs.chain_id;
  height = height;
  validator_set = vals;
  prevotes = [];
  precommits = [];
  generation = (hvs.generation + 1) % 18446744073709551616;
}

module _ (c : Crypto) where
  unfoldable pub add_vote : HeightVoteSet → ℤ → Vote → HeightVoteSet × Result
  add_vote hvs now vote =
      dispatch_vote (λ vs. VoteSet.add_vote c vs hvs.generation now vote) hvs vote

  unfoldable pub add_vote_for_replay : HeightVoteSet → Vote → HeightVoteSet × Result
  add_vote_for_replay hvs vote =
      dispatch_vote (λ vs. VoteSet.add_vote_for_replay c vs hvs.generation vote) hvs vote
