-- ===== src/Types/Validator/Rotation/Turns.antt =====
-- GetProposerForRound of types/validator.go, compared with turns on integers without bounds.
use leaderberry.Prelude.{ℕ, ◌+◌, ◌*◌, ◌≤◌, List, pos, All}
use leaderberry.Types.Validator.{NamedValidator, ValidatorSet}
use leaderberry.Types.Validator.Tally.{total}
use leaderberry.Types.Validator.Member.{WellFormed}
use leaderberry.Types.Validator.Rotation.Exact.{turns, Within}
use leaderberry.Types.Validator.Rotation.Centered.{far}

module _ (vs : ValidatorSet) (m n : ℕ) (w : WellFormed vs) (bounded : All (Within m) vs.validators)
    (near : m + n * total vs.validators ≤ far) where
  abbrev ahead : List NamedValidator
  ahead = turns (pos (total vs.validators)) n vs.validators
