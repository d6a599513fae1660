-- ===== src/Tests/Votes.antt =====
-- Tests of the vote set and of the commits made of it.
use leaderberry.Prelude.{
  ◌*◌, ◌<◌, ◌≡◌, ◌≢◌, ◌↔◌, refl, subst, true, false, ◌&&◌, some, [], ◌∷◌, pos, ◌≤ℤ◌, arith, lookup,
  insert, nat_key, bytes_key, ◌+ℤ◌, ◌-ℤ◌, bytes_eq, hex_encode, add64, sub64, wrap64,
}
use leaderberry.Types.Account.{account_name_equal, copy_account_name}
use leaderberry.Types.Hash.{Hash, is_hash_empty, copy_public_key, copy_bytes, copy_hash, all_zero}
use leaderberry.Types.Vote.{copy_vote, vote_sign_bytes, verify_signature}
use leaderberry.Types.Validator.{get_by_index, copy_validator, two_thirds_majority}
use leaderberry.Types.Validator.Tally.{total, tally}
use leaderberry.Engine.VoteSet.{
  VoteSet, Result, ok, block_hash_key, new_vote_set, add_vote, store_vote, has_two_thirds_any,
  is_stale, matches, add_vote_internal, check_validator, check_existing, count_vote, counted_block,
  votes_equal, would_overflow,
}
use leaderberry.Engine.VoteSet.Counted.{Counted, voted_for, voted_power}
use leaderberry.Engine.VoteSet.Adding.{new_vote_set-Counted}
use leaderberry.Engine.VoteSet.Outcome.{Joins, add_vote-Counted, add_vote_unchanged}
use leaderberry.Engine.VoteSet.Majority.{
  HasQuorum, quorum_unique, maj23-HasQuorum, add_vote-keeps-maj23, conflicting_majorities,
  has_two_thirds_any_lem,
}
use leaderberry.Engine.VoteSet.Accepting.{add_vote_takes, add_vote-keeps}
use leaderberry.Tests.Inputs.{
  letter_crypto, chain, block_x, block_y, precommit, kept, two_validators,
  two_validators-WellFormed,
}

abbrev no_votes : VoteSet
no_votes = new_vote_set chain (pos 5) (pos 0) (pos 2) two_validators

no_votes-Counted : Counted letter_crypto no_votes
no_votes-Counted =
    new_vote_set-Counted letter_crypto chain (pos 5) (pos 0) (pos 2) two_validators
      two_validators-WellFormed

-- The vote set with the precommit of the first validator for a block.
abbrev pub voted : Hash → VoteSet
voted hash = record {
  chain_id = chain;
  height = pos 5;
  round = pos 0;
  vote_type = pos 2;
  validator_set = two_validators;
  votes = (0, precommit 97 0 (some hash)) ∷ [];
  votes_by_block =
      (
        block_hash_key (some hash),
        record {
          block_hash = some hash;
          votes = precommit 97 0 (some hash) ∷ [];
          total_power = pos 3;
        },
      )
      ∷ [];
  sum = pos 3;
  maj23 = some (block_hash_key (some hash));
  peer_maj23 = [];
  has_parent = false;
  my_generation = 0;
}

voted_lem :
    (add_vote letter_crypto no_votes 0 (pos 1000) (precommit 97 0 (some block_x))
      ≡ (voted block_x, ok true))
    × (add_vote letter_crypto no_votes 0 (pos 1000) (precommit 97 0 (some block_y))
        ≡ (voted block_y, ok true))
unfolding add_vote is_stale new_vote_set matches ◌+ℤ◌ ◌-ℤ◌ add_vote_internal get_by_index lookup
    check_validator account_name_equal copy_validator copy_account_name bytes_eq verify_signature
    copy_public_key copy_bytes check_existing block_hash_key count_vote counted_block store_vote
    votes_equal would_overflow hex_encode add64 sub64 wrap64 insert all_zero copy_hash is_hash_empty
    two_thirds_majority copy_vote vote_sign_bytes
voted_lem = (refl, refl)

add_vote-Counted_example :
    Counted letter_crypto
      (add_vote letter_crypto no_votes 0 (pos 1000) (precommit 97 0 (some block_x))).0
add_vote-Counted_example =
    add_vote-Counted letter_crypto no_votes (precommit 97 0 (some block_x)) 0 (pos 1000)
      no_votes-Counted

pub voted_x-Counted : Counted letter_crypto (voted block_x)
voted_x-Counted =
    subst (λ (r : VoteSet × Result). Counted letter_crypto r.0) (voted_lem.0)
      add_vote-Counted_example

pub voted_y-Counted : Counted letter_crypto (voted block_y)
voted_y-Counted =
    subst (λ (r : VoteSet × Result). Counted letter_crypto r.0) (voted_lem.1)
      (add_vote-Counted letter_crypto no_votes (precommit 97 0 (some block_y)) 0 (pos 1000)
        no_votes-Counted)

first-Joins :
    Joins letter_crypto no_votes (precommit 97 0 (some block_x)) (kept 97 0 (pos 3) (pos 1))
unfolding get_by_index copy_validator lookup copy_account_name copy_public_key copy_bytes
    account_name_equal bytes_eq verify_signature vote_sign_bytes matches new_vote_set
first-Joins = record { known = refl; named = refl; signed = refl; matched = refl; new = refl }

add_vote_takes_example :
    add_vote letter_crypto no_votes 0 (pos 1000) (precommit 97 0 (some block_x))
    ≡ (store_vote no_votes (precommit 97 0 (some block_x)) (kept 97 0 (pos 3) (pos 1)), ok true)
unfolding is_stale new_vote_set ◌+ℤ◌ ◌-ℤ◌
add_vote_takes_example =
    add_vote_takes letter_crypto no_votes 0 (pos 1000) (precommit 97 0 (some block_x))
      (kept 97 0 (pos 3) (pos 1)) no_votes-Counted first-Joins not_stale early late
  where
    not_stale : is_stale no_votes 0 ≡ false
    not_stale = refl

    early : pos 1000 ≤ℤ pos 1000 +ℤ pos 600000000000
    early = omega arith

    late : pos 1000 -ℤ pos 600000000000 ≤ℤ pos 1000
    late = omega arith

-- A second vote of the first validator, for another block.
conflict_lem :
    (add_vote letter_crypto (voted block_x) 0 (pos 1000) (precommit 97 0 (some block_y))).1
    ≢ ok true
unfolding add_vote is_stale matches ◌+ℤ◌ ◌-ℤ◌ add_vote_internal get_by_index lookup check_validator
    account_name_equal copy_validator copy_account_name bytes_eq verify_signature copy_public_key
    copy_bytes check_existing votes_equal vote_sign_bytes
conflict_lem e = cc

add_vote_unchanged_example :
    (add_vote letter_crypto (voted block_x) 0 (pos 1000) (precommit 97 0 (some block_y))).0
    ≡ voted block_x
add_vote_unchanged_example =
    add_vote_unchanged letter_crypto (voted block_x) (precommit 97 0 (some block_y)) 0 (pos 1000)
      conflict_lem

first_there : lookup 0 (voted block_x).votes ≡ some (precommit 97 0 (some block_x))
unfolding lookup
first_there = refl

add_vote-keeps_example :
    lookup 0
      (add_vote letter_crypto (voted block_x) 0 (pos 1000) (precommit 97 0 (some block_y))).0.votes
    ≡ some (precommit 97 0 (some block_x))
add_vote-keeps_example =
    add_vote-keeps letter_crypto (voted block_x) 0 (pos 1000) (precommit 97 0 (some block_y))
      (precommit 97 0 (some block_x)) 0 first_there

add_vote-keeps-maj23_example :
    (add_vote letter_crypto (voted block_x) 0 (pos 1000) (precommit 98 1 (some block_y))).0.maj23
    ≡ some (block_hash_key (some block_x))
add_vote-keeps-maj23_example =
    add_vote-keeps-maj23 letter_crypto (voted block_x) 0 (pos 1000) (precommit 98 1 (some block_y))
      (block_hash_key (some block_x)) refl

pub x_quorum : HasQuorum (voted block_x) (block_hash_key (some block_x))
x_quorum = (voted_x-Counted.majority_lem (block_hash_key (some block_x)) refl).0

pub y_quorum : HasQuorum (voted block_y) (block_hash_key (some block_y))
y_quorum = (voted_y-Counted.majority_lem (block_hash_key (some block_y)) refl).0

quorum_unique_example : block_hash_key (some block_x) ≡ block_hash_key (some block_x)
quorum_unique_example =
    quorum_unique letter_crypto (voted block_x) (block_hash_key (some block_x))
      (block_hash_key (some block_x)) voted_x-Counted x_quorum x_quorum

maj23-HasQuorum_example :
    ((voted block_x).maj23 ≡ some (block_hash_key (some block_x)))
    ↔ HasQuorum (voted block_x) (block_hash_key (some block_x))
maj23-HasQuorum_example =
    maj23-HasQuorum letter_crypto (voted block_x) (block_hash_key (some block_x)) voted_x-Counted

conflicting_majorities_example :
    total two_validators.validators
    < 3
      * tally
          (λ i.
            voted_for (voted block_x) (block_hash_key (some block_x)) i
            && voted_for (voted block_y) (block_hash_key (some block_y)) i)
          two_validators.validators
conflicting_majorities_example =
    conflicting_majorities letter_crypto (voted block_x) (voted block_y)
      (block_hash_key (some block_x)) (block_hash_key (some block_y)) voted_x-Counted
      voted_y-Counted refl refl refl

has_two_thirds_any_lem_example :
    (has_two_thirds_any (voted block_x) ≡ true)
    ↔ (2 * total two_validators.validators < 3 * voted_power (voted block_x))
has_two_thirds_any_lem_example =
    has_two_thirds_any_lem letter_crypto (voted block_x) voted_x-Counted
