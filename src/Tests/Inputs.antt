-- ===== src/Tests/Inputs.antt =====
-- Two validators of powers 3 and 1, keys and signatures that begin with the validator's letter, and a
-- check of signatures that compares these letters.
use leaderberry.Prelude.{
  ℕ, ◌≡◌, refl, Option, none, some, List, [], ◌∷◌, ℤ, pos, negsuc, pos_part, arith, Bytes, All,
  replicate, get_or, ◌==◌, lookup, insert, sub64, wrap64, ◌-ℤ◌, bytes_eq, add64, ◌+ℤ◌,
}
use leaderberry.Types.Hash.{Hash, Signature, copy_public_key, copy_bytes}
use leaderberry.Types.Account.{account_name_string, is_account_name_empty, copy_account_name}
use leaderberry.Types.Vote.{Vote, Crypto, vote_type_precommit}
use leaderberry.Types.Validator.{
  NamedValidator, ValidatorSet, ok, new_validator_set, add_validators, finish, append_validator,
  indexed_copy, copy_validator, all_zero_priorities, init_proposer_priorities, center_priorities,
  seed_priority, shift_priority, average_priority, priority_sum, get_proposer, proposer_from,
  preferred,
}
use leaderberry.Types.Validator.Member.{WellFormed}
use leaderberry.Types.Validator.Build.{IsInt64Power, new_validator_set-WellFormed}

abbrev hash_bytes : Option Hash → Bytes
hash_bytes none = []
hash_bytes (some h) = h.data'

abbrev pub letter_crypto : Crypto
letter_crypto = record {
  ed25519_verify = λ key message sig. get_or key 0 0 == get_or sig 0 0;
  marshal_vote = λ v.
      pos_part v.type'
      ∷ pos_part v.height
      ∷ pos_part v.round
      ∷ v.validator_index
      ∷ hash_bytes v.block_hash;
}

abbrev pub chain : Bytes
chain = 99 ∷ []

abbrev pub block_x : Hash
block_x = record { data' = 1 ∷ replicate 31 0 }

abbrev pub block_y : Hash
block_y = record { data' = 2 ∷ replicate 31 0 }

abbrev pub signed_by : ℕ → Signature
signed_by letter = record { data' = letter ∷ replicate 63 0 }

abbrev pub given : ℕ → ℤ → Option NamedValidator
given letter power = some (record {
  name = record { name = some (letter ∷ []) };
  index = 0;
  public_key = record { data' = letter ∷ replicate 31 0 };
  voting_power = power;
  proposer_priority = pos 0;
})

abbrev pub inputs : List (Option NamedValidator)
inputs = given 97 (pos 3) ∷ given 98 (pos 1) ∷ []

-- The validator that the set keeps of the one given.
abbrev pub kept : ℕ → ℕ → ℤ → ℤ → NamedValidator
kept letter i power priority = record {
  name = record { name = some (letter ∷ []) };
  index = i;
  public_key = record { data' = letter ∷ replicate 31 0 };
  voting_power = power;
  proposer_priority = priority;
}

abbrev pub two_validators : ValidatorSet
two_validators = record {
  validators = kept 97 0 (pos 3) (pos 1) ∷ kept 98 1 (pos 1) (negsuc 0) ∷ [];
  proposer = some 0;
  total_power = pos 4;
  by_name = (97 ∷ [], 0) ∷ (98 ∷ [], 1) ∷ [];
  by_index = (0, 0) ∷ (1, 1) ∷ [];
}

pub two_validators_lem : new_validator_set inputs ≡ ok two_validators
unfolding new_validator_set add_validators finish append_validator indexed_copy copy_validator
    all_zero_priorities init_proposer_priorities center_priorities seed_priority shift_priority
    average_priority priority_sum get_proposer proposer_from preferred account_name_string
    is_account_name_empty copy_account_name copy_public_key copy_bytes lookup insert sub64 wrap64
    ◌-ℤ◌ bytes_eq add64 ◌+ℤ◌
two_validators_lem = refl

pub inputs-IsInt64Power : All IsInt64Power inputs
inputs-IsInt64Power = (omega arith, (omega arith, tt))

pub two_validators-WellFormed : WellFormed two_validators
two_validators-WellFormed =
    (new_validator_set-WellFormed inputs two_validators inputs-IsInt64Power two_validators_lem).0

-- A precommit of a validator for a block.
abbrev pub precommit : ℕ → ℕ → Option Hash → Vote
precommit letter i hash = record {
  type' = vote_type_precommit;
  height = pos 5;
  round = pos 0;
  block_hash = hash;
  timestamp = pos 1000;
  validator = record { name = some (letter ∷ []) };
  validator_index = i;
  signature = signed_by letter;
}
