-- ===== src/Tests/Peers.antt =====
-- Tests of timeouts, of what is known of a peer, and of changes of the validator set.
use leaderberry.Prelude.{
  ◌+◌, ◌<◌, ◌≡◌, refl, Bool, true, false, not, ◌&&◌, none, some, List, [], ◌∷◌, All, ℤ, pos, negsuc,
  arith, ltb, length, wrap64, mul64, add64, ◌*ℤ◌, ◌+ℤ◌, replicate, ◌<ℤ◌, ltb_ℤ,
}
use leaderberry.Types.Validator.{ValidatorSet, size}
use leaderberry.Engine.State.{ValidatorUpdate, propose, prevote}
use leaderberry.Engine.State.Updates.{apply_validator_updates, updated_validators}
use leaderberry.Engine.Timeouts.{
  TimeoutConfig, Config, default_timeout_config, calculate_duration, grown, validate,
  validate_basic,
}
use leaderberry.Engine.Timeouts.Durations.{Rises, calculate_duration-Rises}
use leaderberry.Engine.PeerState.{
  PeerState, new_vote_bitmap, has, missing, new_peer_state, apply_new_round_step, set_has_vote,
  needs_vote,
}
use leaderberry.Engine.PeerState.Bitmap.{
  IsSized, new_vote_bitmap-IsSized, set_all, contains, set_all-contains,
}
use leaderberry.Engine.PeerState.Gossip.{same_slot, needs_vote-set_has_vote}
use leaderberry.Tests.Inputs.{block_x, precommit, two_validators}

abbrev settings : Config
settings = record {
  chain_id = 99 ∷ [];
  timeouts = default_timeout_config;
  wal_path = 100 ∷ [];
  wal_sync = true;
  max_block_bytes = pos 22020096;
  create_empty_blocks = true;
  create_empty_blocks_interval = pos 0;
  skip_timeout_commit = false;
}

settings_lem : validate_basic settings ≡ none
unfolding validate_basic validate
settings_lem = refl

calculate_duration-Rises_example :
    Rises
      (calculate_duration default_timeout_config propose (pos 3))
      (calculate_duration default_timeout_config propose (pos 20000))
calculate_duration-Rises_example =
    calculate_duration-Rises settings propose (pos 3) (pos 20000) settings_lem
      (omega arith, omega arith, omega arith) (omega arith)

-- A delta of twenty days is valid, and the timeout of round 10000 is negative.
abbrev long_delta : TimeoutConfig
long_delta = record default_timeout_config { propose_delta = pos 1728000000000000 }

long_delta_lem : validate long_delta ≡ none
unfolding validate
long_delta_lem = refl

long_delta_negative : ltb_ℤ (calculate_duration long_delta propose (pos 10000)) (pos 0) ≡ true
unfolding calculate_duration grown mul64 add64 wrap64 ◌*ℤ◌ ◌+ℤ◌
long_delta_negative = refl

few : size two_validators + 0 ≡ 2
unfolding size
few = refl

set_all-contains_example :
    let vb = set_all (new_vote_bitmap (some two_validators)) (1 ∷ 7 ∷ 1 ∷ []) in
    (has vb 1 ≡ (contains (1 ∷ 7 ∷ 1 ∷ []) 1 && ltb 1 (size two_validators)))
    × (length (missing vb) + vb.count ≡ size two_validators)
set_all-contains_example = set_all-contains two_validators (1 ∷ 7 ∷ 1 ∷ []) 1 (omega (arith, few))

two_validators-IsSized : IsSized (new_vote_bitmap (some two_validators))
two_validators-IsSized = new_vote_bitmap-IsSized two_validators (omega (arith, few))

abbrev peer : PeerState
peer =
    apply_new_round_step (pos 2) (new_peer_state (pos 1) (80 ∷ []) (some two_validators)) (pos 5)
      (pos 0) prevote

needs_vote-set_has_vote_example :
    needs_vote (set_has_vote (pos 3) peer (precommit 98 1 (some block_x))) (precommit 97 0 none) ≡ (
      needs_vote peer (precommit 97 0 none)
      && not (same_slot (precommit 98 1 (some block_x)) (precommit 97 0 none)))
unfolding apply_new_round_step new_peer_state
needs_vote-set_has_vote_example =
    needs_vote-set_has_vote (pos 3) peer (precommit 98 1 (some block_x)) (precommit 97 0 none)
      two_validators-IsSized two_validators-IsSized index_fits index_fits
  where
    index_fits : 1 < (new_vote_bitmap (some two_validators)).num_vals
    index_fits = unfold new_vote_bitmap in omega (arith, few)

abbrev new_member : ValidatorUpdate
new_member = record {
  name = record { name = some (99 ∷ []) };
  public_key = record { data' = 99 ∷ replicate 31 0 };
  voting_power = pos 2;
}

abbrev next_set : ValidatorSet
next_set = elim (apply_validator_updates two_validators (new_member ∷ [])) [
  | none ↦ two_validators
  | some vals ↦ vals
]

next_set_lem : apply_validator_updates two_validators (new_member ∷ []) ≡ some next_set
unfolding leaderberry.Prelude.◌+ℤ◌ leaderberry.Prelude.◌-ℤ◌ leaderberry.Prelude.wrap64
    leaderberry.Prelude.add64 leaderberry.Prelude.sub64 leaderberry.Prelude.lookup
    leaderberry.Prelude.insert leaderberry.Prelude.bytes_eq leaderberry.Prelude.bytes_lt
    leaderberry.Types.Account.account_name_string leaderberry.Types.Account.is_account_name_empty
    leaderberry.Types.Validator.append_validator leaderberry.Types.Validator.add_validators
    leaderberry.Types.Validator.new_validator_set
    leaderberry.Engine.State.Updates.current_validators leaderberry.Engine.State.Updates.updated
    leaderberry.Engine.State.Updates.apply_updates leaderberry.Engine.State.Updates.penalize
    leaderberry.Engine.State.Updates.insert_by_name leaderberry.Engine.State.Updates.sort_by_name
    leaderberry.Engine.State.Updates.updated_validators
    leaderberry.Engine.State.Updates.apply_validator_updates
next_set_lem = refl

-- The first member leaves and joins again, the second leaves.
abbrev exchange : List ValidatorUpdate
exchange =
    new_member
    ∷ record new_member { name = record { name = some (97 ∷ []) }; voting_power = pos 0 }
    ∷ record new_member { name = record { name = some (98 ∷ []) }; voting_power = pos 0 }
    ∷ record new_member { name = record { name = some (97 ∷ []) }; voting_power = pos 6 }
    ∷ []

-- The third member has joined.
three_members : size next_set ≡ 3
unfolding leaderberry.Prelude.◌+ℤ◌ leaderberry.Prelude.◌-ℤ◌ leaderberry.Prelude.wrap64
    leaderberry.Prelude.add64 leaderberry.Prelude.sub64 leaderberry.Prelude.lookup
    leaderberry.Prelude.insert leaderberry.Prelude.bytes_eq leaderberry.Prelude.bytes_lt
    leaderberry.Types.Account.account_name_string leaderberry.Types.Account.is_account_name_empty
    leaderberry.Types.Validator.copy_validator leaderberry.Types.Validator.size
    leaderberry.Types.Validator.preferred leaderberry.Types.Validator.proposer_from
    leaderberry.Types.Validator.get_proposer leaderberry.Types.Validator.center_priorities
    leaderberry.Types.Validator.all_zero_priorities leaderberry.Types.Validator.indexed_copy
    leaderberry.Types.Validator.append_validator leaderberry.Types.Validator.add_validators
    leaderberry.Types.Validator.finish leaderberry.Types.Validator.new_validator_set
    leaderberry.Types.Validator.Rotation.raised leaderberry.Types.Validator.Rotation.raise
    leaderberry.Types.Validator.Rotation.charge leaderberry.Types.Validator.Rotation.rotate_once
    leaderberry.Types.Validator.Rotation.rotate
    leaderberry.Types.Validator.Rotation.increment_proposer_priority
    leaderberry.Types.Validator.Rotation.copy
    leaderberry.Types.Validator.Rotation.with_incremented_priority
    leaderberry.Engine.State.Updates.current_validators leaderberry.Engine.State.Updates.updated
    leaderberry.Engine.State.Updates.apply_updates leaderberry.Engine.State.Updates.sum_power
    leaderberry.Engine.State.Updates.round_bits leaderberry.Engine.State.Updates.round53
    leaderberry.Engine.State.Updates.penalty leaderberry.Engine.State.Updates.penalize
    leaderberry.Engine.State.Updates.insert_by_name leaderberry.Engine.State.Updates.sort_by_name
    leaderberry.Engine.State.Updates.updated_validators
    leaderberry.Engine.State.Updates.apply_validator_updates
three_members = refl
