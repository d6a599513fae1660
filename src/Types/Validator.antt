-- ===== src/Types/Validator.antt =====
-- types/validator.go: the validator set, its construction and its lookups.
-- A *NamedValidator that the set keeps (in byName, byIndex and Proposer) points into the slice
-- Validators, so it is a position in the list: a change of the validator there is seen through all.
pub mod Tally
pub mod Member
pub mod Center
pub mod Build
pub mod Quorum
pub mod Rotation
use leaderberry.Prelude.{
  ℕ, suc, ◌+◌, ◌%◌, ◌/◌, ◌*◌, ◌≡◌, refl, Bool, true, false, not, ◌&&◌, ◌||◌, Option, none, some,
  List, [], ◌∷◌, ◌++◌, ℤ, pos, negsuc, add64, sub64, ltb_ℤ, leb_ℤ, eqb_ℤ, quot_ℤ, arith, ltb, ◌==◌,
  if◌then◌else◌, length, get_elem?, Bytes, lookup, insert, nat_key, bytes_key, is_some, map,
  max_int64, min_int64, bytes_lt,
}
use leaderberry.Types.Hash.{PublicKey, copy_public_key, copy_public_key_lem}
use leaderberry.Types.Account.{
  AccountName, account_name_string, is_account_name_empty, copy_account_name, copy_account_name_lem,
}

pub record NamedValidator : Type 0 where
  pub name : AccountName
  pub index : ℕ  -- uint16
  pub public_key : PublicKey
  pub voting_power : ℤ  -- int64
  pub proposer_priority : ℤ  -- int64

pub record ValidatorSet : Type 0 where
  pub validators : List NamedValidator
  pub proposer : Option ℕ
  pub total_power : ℤ
  pub by_name : List (Bytes × ℕ)
  pub by_index : List (ℕ × ℕ)

pub data ValidatorError : Type 0 where
  empty_validator_set too_many_validators invalid_voting_power empty_validator_name
        duplicate_validator total_power_overflow :
      ValidatorError

pub data Result {ℓ} (A : Type ℓ) : Type ℓ where
  ok : A → Result A
  err : ValidatorError → Result A

abbrev pub max_validators : ℕ
max_validators = 65535

abbrev pub max_total_voting_power : ℤ
max_total_voting_power = pos 1152921504606846976

unfoldable pub copy_validator : NamedValidator → NamedValidator
copy_validator v = record {
  name = copy_account_name v.name;
  index = v.index;
  public_key = copy_public_key v.public_key;
  voting_power = v.voting_power;
  proposer_priority = v.proposer_priority;
}

pub copy_validator_lem : (v : NamedValidator) → copy_validator v ≡ v
unfolding copy_validator
copy_validator_lem v =
    ground (arith, copy_account_name_lem v.name, copy_public_key_lem v.public_key)

-- A pointer into the slice, and CopyValidator of what it points to.
abbrev pub deref : List NamedValidator → Option ℕ → Option NamedValidator
deref vals none = none
deref vals (some p) = get_elem? vals p

abbrev pub copy_validator? : Option NamedValidator → Option NamedValidator
copy_validator? none = none
copy_validator? (some v) = some (copy_validator v)

unfoldable pub get_by_name : ValidatorSet → Bytes → Option NamedValidator
get_by_name vs name = copy_validator? (deref vs.validators (lookup name vs.by_name))

unfoldable pub get_by_index : ValidatorSet → ℕ → Option NamedValidator
get_by_index vs index = copy_validator? (deref vs.validators (lookup index vs.by_index))

unfoldable pub size : ValidatorSet → ℕ
size vs = length vs.validators

-- The divisions are those of a positive number, so they are exact on ℕ.
unfoldable pub two_thirds_majority : ValidatorSet → ℤ
two_thirds_majority vs = elim vs.total_power [
  | pos total ↦
      if total == 0
      then pos 0
      else let third = total / 3 in
        let remainder = total % 3 in
        let two_thirds = add64 (pos third) (pos third) in
        let adjusted = if remainder == 2 then add64 two_thirds (pos 1) else two_thirds in
        add64 adjusted (pos 1)
  | negsuc _ ↦ pos 0
]

-- The test by which getProposer prefers `v` to the proposer found so far.
unfoldable pub preferred : NamedValidator → NamedValidator → Bool
preferred v best =
    ltb_ℤ best.proposer_priority v.proposer_priority
    || (eqb_ℤ v.proposer_priority best.proposer_priority
        && bytes_lt (account_name_string v.name) (account_name_string best.name))

-- The loop of getProposer from position `i`, with the best so far and its position.
unfoldable pub proposer_from : ℕ → ℕ → NamedValidator → List NamedValidator → ℕ
proposer_from i p best [] = p
proposer_from i p best (v ∷ vs) =
    proposer_from (suc i) (if preferred v best then i else p) (if preferred v best then v else best)
      vs

unfoldable pub get_proposer : List NamedValidator → Option ℕ
get_proposer [] = none
get_proposer (v ∷ vs) = some (proposer_from 1 0 v vs)

-- The summation of centerPriorities; `none` is its overflow flag.
unfoldable pub priority_sum : ℤ → List NamedValidator → Option ℤ
priority_sum sum [] = some sum
priority_sum sum (v ∷ vs) =
    if ltb_ℤ (pos 0) v.proposer_priority && ltb_ℤ (sub64 max_int64 v.proposer_priority) sum
    then none
    else if ltb_ℤ v.proposer_priority (pos 0) && ltb_ℤ sum (sub64 min_int64 v.proposer_priority)
    then none
    else priority_sum (add64 sum v.proposer_priority) vs

unfoldable pub average_priority : List NamedValidator → ℤ
average_priority vals = elim (priority_sum (pos 0) vals) [
  | none ↦ pos 0
  | some sum ↦ quot_ℤ sum (length vals)
]

unfoldable pub shift_priority : ℤ → NamedValidator → NamedValidator
shift_priority avg v = record v { proposer_priority = sub64 v.proposer_priority avg }

unfoldable pub center_priorities : List NamedValidator → List NamedValidator
center_priorities vals = map (shift_priority (average_priority vals)) vals

unfoldable pub seed_priority : NamedValidator → NamedValidator
seed_priority v = record v { proposer_priority = v.voting_power }

unfoldable pub init_proposer_priorities : List NamedValidator → List NamedValidator
init_proposer_priorities vals = center_priorities (map seed_priority vals)

unfoldable pub all_zero_priorities : List NamedValidator → Bool
all_zero_priorities [] = true
all_zero_priorities (v ∷ vs) = eqb_ℤ v.proposer_priority (pos 0) && all_zero_priorities vs

-- The copy that NewValidatorSet keeps of the validator at position `i`.
unfoldable pub indexed_copy : ℕ → NamedValidator → NamedValidator
indexed_copy i v = record (copy_validator v) { index = i % 65536 }

-- One round of the loop of NewValidatorSet, past its checks.
unfoldable pub append_validator : ℕ → ValidatorSet → NamedValidator → ValidatorSet
append_validator i vs v = record {
  validators = vs.validators ++ indexed_copy i v ∷ [];
  proposer = vs.proposer;
  total_power = add64 vs.total_power v.voting_power;
  by_name = insert (account_name_string v.name) i vs.by_name;
  by_index = insert (i % 65536) i vs.by_index;
}

-- The loop of NewValidatorSet from position `i`; `none` is a nil pointer in the slice.
unfoldable pub add_validators :
    ℕ → ValidatorSet → List (Option NamedValidator) → Result ValidatorSet
add_validators i vs [] = ok vs
add_validators i vs (none ∷ rest) = err invalid_voting_power
add_validators i vs (some v ∷ rest) =
    if is_account_name_empty v.name
    then err empty_validator_name
    else if leb_ℤ v.voting_power (pos 0)
    then err invalid_voting_power
    else if is_some (lookup (account_name_string v.name) vs.by_name)
    then err duplicate_validator
    else if ltb_ℤ (sub64 max_total_voting_power v.voting_power) vs.total_power
    then err total_power_overflow
    else add_validators (suc i) (append_validator i vs v) rest

abbrev pub no_validators : ValidatorSet
no_validators = record {
  validators = [];
  proposer = none;
  total_power = pos 0;
  by_name = [];
  by_index = [];
}

-- What follows the loop: initial priorities if all are zero, and the first proposer.
unfoldable pub finish : ValidatorSet → ValidatorSet
finish vs =
    let vals =
      if all_zero_priorities vs.validators
      then init_proposer_priorities vs.validators
      else vs.validators in
    record vs { validators = vals; proposer = get_proposer vals }

abbrev pub map_ok : (ValidatorSet → ValidatorSet) → Result ValidatorSet → Result ValidatorSet
map_ok f (ok vs) = ok (f vs)
map_ok f (err e) = err e

unfoldable pub new_validator_set : List (Option NamedValidator) → Result ValidatorSet
new_validator_set vals =
    if length vals == 0
    then err empty_validator_set
    else if ltb max_validators (length vals)
    then err too_many_validators
    else map_ok finish (add_validators 0 no_validators vals)
