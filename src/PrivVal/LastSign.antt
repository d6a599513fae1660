-- ===== src/PrivVal/LastSign.antt =====
-- privval/signer.go: the last signed height, round and step, and CheckHRS.
use leaderberry.Prelude.{
  ◌≡◌, ◌↔◌, ◌⊎◌, Option, none, some, [], ℤ, pos, ◌<ℤ◌, ltb_ℤ, eqb_ℤ, eqb_ℤ_iff, arith,
  if◌then◌else◌,
}
use leaderberry.Types.Hash.{Hash, Signature}
use leaderberry.Types.Vote.{vote_type_prevote, vote_type_precommit}

pub record LastSignState : Type 0 where
  pub height : ℤ
  pub round : ℤ
  pub step : ℤ  -- int8
  pub signature : Signature
  pub block_hash : Option Hash
  pub sign_bytes_hash : Option Hash
  pub timestamp : ℤ

-- The zero value of the struct.
abbrev pub empty_state : LastSignState
empty_state = record {
  height = pos 0;
  round = pos 0;
  step = pos 0;
  signature = record { data' = [] };
  block_hash = none;
  sign_bytes_hash = none;
  timestamp = pos 0;
}

abbrev pub step_proposal : ℤ
step_proposal = pos 0

abbrev pub step_prevote : ℤ
step_prevote = pos 1

abbrev pub step_precommit : ℤ
step_precommit = pos 2

pub data SignError : Type 0 where
  double_sign height_regression round_regression step_regression : SignError

-- `none` is the nil error.
unfoldable pub check_hrs : LastSignState → ℤ → ℤ → ℤ → Option SignError
check_hrs lss height round step =
    if ltb_ℤ height lss.height
    then some height_regression
    else if eqb_ℤ lss.height height
    then if ltb_ℤ round lss.round
      then some round_regression
      else if eqb_ℤ lss.round round
      then if ltb_ℤ step lss.step
        then some step_regression
        else if eqb_ℤ lss.step step
        then some double_sign
        else none
      else none
    else none

-- `none` is the panic on an invalid vote type.
unfoldable pub vote_step : ℤ → Option ℤ
vote_step vote_type =
    if eqb_ℤ vote_type vote_type_prevote
    then some step_prevote
    else if eqb_ℤ vote_type vote_type_precommit
    then some step_precommit
    else none

-- The first height, round and step come before the second, in the order of words.
abbrev pub Precedes : ℤ → ℤ → ℤ → ℤ → ℤ → ℤ → Type 0
Precedes h r s height round step =
    (h <ℤ height) ⊎ (h ≡ height) × ((r <ℤ round) ⊎ (r ≡ round) × (s <ℤ step))

pub Precedes-trans :
    (h r s h' r' s' h'' r'' s'' : ℤ)
    → Precedes h r s h' r' s'
    → Precedes h' r' s' h'' r'' s''
    → Precedes h r s h'' r'' s''
Precedes-trans h r s h' r' s' h'' r'' s'' p q = ground arith

pub Precedes-irrefl : (h r s : ℤ) → Precedes h r s h r s → ⊥
Precedes-irrefl h r s p = omega arith

abbrev pub IsLater : LastSignState → ℤ → ℤ → ℤ → Type 0
IsLater lss height round step = Precedes lss.height lss.round lss.step height round step

abbrev pub IsAt : LastSignState → ℤ → ℤ → ℤ → Type 0
IsAt lss height round step = (lss.height ≡ height) × (lss.round ≡ round) × (lss.step ≡ step)

-- CheckHRS allows a signature exactly for a later height, round and step, and reports a double sign
-- exactly for the same ones.
pub check_hrs-none :
    (lss : LastSignState) (height round step : ℤ)
    → ((check_hrs lss height round step ≡ none) ↔ IsLater lss height round step)
      × ((check_hrs lss height round step ≡ some double_sign) ↔ IsAt lss height round step)
unfolding check_hrs
check_hrs-none lss height round step = (
  (
    λ e.
        ground
          (arith, eqb_ℤ_iff lss.height height, eqb_ℤ_iff lss.round round, eqb_ℤ_iff lss.step step),
    λ l.
        ground
          (arith, eqb_ℤ_iff lss.height height, eqb_ℤ_iff lss.round round, eqb_ℤ_iff lss.step step),
  ),
  (
    λ e.
        ground
          (arith, eqb_ℤ_iff lss.height height, eqb_ℤ_iff lss.round round, eqb_ℤ_iff lss.step step),
    λ l.
        ground
          (arith, eqb_ℤ_iff lss.height height, eqb_ℤ_iff lss.round round, eqb_ℤ_iff lss.step step),
  ),
)
