-- ===== src/Tests/Validators.antt =====
-- Tests of the validator set, its quorum and its rotation.
use leaderberry.Prelude.{
  ℕ, zero, suc, ◌*◌, ◌-◌, ◌<◌, ◌≤◌, ◌≡◌, refl, Bool, true, false, some, pos, ◌≤ℤ◌, arith, length,
  add64, wrap64, ◌+ℤ◌,
}
use leaderberry.Types.Validator.{size, two_thirds_majority}
use leaderberry.Types.Validator.Tally.{tally}
use leaderberry.Types.Validator.Member.{WellFormed, SameMembers}
use leaderberry.Types.Validator.Build.{new_validator_set-WellFormed}
use leaderberry.Types.Validator.Quorum.{two_thirds_majority-least}
use leaderberry.Types.Validator.Rotation.{increment_proposer_priority, with_incremented_priority}
use leaderberry.Types.Validator.Rotation.Copies.{with_incremented_priority-WellFormed}
use leaderberry.Types.Validator.Rotation.Best.{BestAt}
use leaderberry.Types.Validator.Rotation.Rounds.{increment_proposer_priority-WellFormed}
use leaderberry.Tests.Inputs.{
  inputs, inputs-IsInt64Power, two_validators, two_validators_lem, two_validators-WellFormed,
}

new_validator_set-WellFormed_example :
    WellFormed two_validators × (size two_validators ≡ length inputs)
new_validator_set-WellFormed_example =
    new_validator_set-WellFormed inputs two_validators inputs-IsInt64Power two_validators_lem

two_thirds_majority-least_example :
    (q : ℕ) × (two_thirds_majority two_validators ≡ pos q)
    × (2 * 4 < 3 * q)
    × (3 * (q - 1) ≤ 2 * 4)
    × (q ≤ 4)
two_thirds_majority-least_example =
    two_thirds_majority-least two_validators 4 refl (omega arith) (omega arith)

abbrev first : ℕ → Bool
first zero = true
first (suc i) = false

abbrev both : ℕ → Bool
both i = true

first_reaches : two_thirds_majority two_validators ≤ℤ pos (tally first two_validators.validators)
unfolding two_thirds_majority tally add64 wrap64 ◌+ℤ◌
first_reaches = omega arith

both_reach : two_thirds_majority two_validators ≤ℤ pos (tally both two_validators.validators)
unfolding two_thirds_majority tally add64 wrap64 ◌+ℤ◌
both_reach = omega arith

increment_proposer_priority-WellFormed_example :
    WellFormed (increment_proposer_priority two_validators (pos 2))
    × SameMembers two_validators.validators
        (increment_proposer_priority two_validators (pos 2)).validators
    × ((p : ℕ) × ((increment_proposer_priority two_validators (pos 2)).proposer ≡ some p)
        × BestAt (increment_proposer_priority two_validators (pos 2)).validators p)
increment_proposer_priority-WellFormed_example =
    increment_proposer_priority-WellFormed two_validators (pos 2) two_validators-WellFormed

with_incremented_priority-WellFormed_example :
    WellFormed (with_incremented_priority two_validators (pos 2))
    × SameMembers two_validators.validators
        (with_incremented_priority two_validators (pos 2)).validators
    × ((p : ℕ) × ((with_incremented_priority two_validators (pos 2)).proposer ≡ some p)
        × BestAt (with_incremented_priority two_validators (pos 2)).validators p)
with_incremented_priority-WellFormed_example =
    with_incremented_priority-WellFormed two_validators (pos 2) two_validators-WellFormed
