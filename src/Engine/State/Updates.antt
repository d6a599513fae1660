-- ===== src/Engine/State/Updates.antt =====
-- applyValidatorUpdates of engine/state.go. The maps are association lists, whose order the sort by name
-- removes. A float64 of the code holds a whole number or eighths of one, so it is an integer that is
-- rounded to 53 bits, half to even.
pub mod Powers
pub mod Fates
pub mod After
pub mod Keyed
pub mod Sorting
pub mod Members
use leaderberry.Prelude.{
  ℕ, zero, suc, ◌+◌, ◌*◌, ◌/◌, ◌%◌, Bool, true, false, ◌&&◌, Option, none, some, List, [], ◌∷◌, map,
  ℤ, pos, negsuc, sub_ℕ, pos_part, neg_part, add64, eqb_ℤ, ltb, ◌==◌, if◌then◌else◌, length, Bytes,
  bytes_eq, bytes_lt, lookup, insert, bytes_key, keep_if, not, is_some,
}
use leaderberry.Types.Account.{AccountName, account_name_string}
use leaderberry.Types.Validator
use leaderberry.Types.Validator.{ValidatorSet, NamedValidator, new_validator_set}
use leaderberry.Types.Validator.Rotation.{with_incremented_priority}
use leaderberry.Engine.State.{ValidatorUpdate}

unfoldable pub current_validators :
    List NamedValidator → List (Bytes × NamedValidator) → List (Bytes × NamedValidator)
current_validators [] vals = vals
current_validators (v ∷ vs) vals =
    current_validators vs (insert (account_name_string v.name) v vals)

abbrev pub delete : Bytes → List (Bytes × NamedValidator) → List (Bytes × NamedValidator)
delete name vals = keep_if (λ e. not (bytes_eq e.0 name)) vals

-- The validator that an update leaves: it keeps its name, index and priority if there is one.
unfoldable pub updated : Option NamedValidator → ValidatorUpdate → NamedValidator
updated (some v) u = record v { public_key = u.public_key; voting_power = u.voting_power }
updated none u = record {
  name = u.name;
  index = 0;
  public_key = u.public_key;
  voting_power = u.voting_power;
  proposer_priority = pos 0;
}

-- The first pass: the validators and the names that are new.
unfoldable pub apply_updates :
    List ValidatorUpdate
    → List (Bytes × NamedValidator) × List (Bytes × Bool)
    → List (Bytes × NamedValidator) × List (Bytes × Bool)
apply_updates [] acc = acc
apply_updates (u ∷ us) (vals, fresh) =
    let name = account_name_string u.name in
    apply_updates us (
      if eqb_ℤ u.voting_power (pos 0) then (delete name vals, fresh) else (
        insert name (updated (lookup name vals) u) vals,
        if is_some (lookup name vals) then fresh else insert name true fresh,
      ))

unfoldable pub sum_power : ℤ → List (Bytes × NamedValidator) → ℤ
sum_power total [] = total
sum_power total ((_, v) ∷ vals) = sum_power (add64 total v.voting_power) vals

-- Halve until the number has at most 53 bits, with the bits lost: the number left, the unit, what is lost.
unfoldable pub round_bits : ℕ → ℕ → ℕ → ℕ → ℕ
round_bits zero n unit low = n * unit
round_bits (suc fuel) n unit low =
    let rest = round_bits fuel (n / 2) (unit * 2) (low + n % 2 * unit) in
    if ltb n 9007199254740992
    then (if ltb unit (low * 2)
        then (n + 1) * unit
        else if low * 2 == unit
        then (n + n % 2) * unit
        else n * unit)
    else rest

-- The nearest number of 53 bits; 16 halvings suffice below 2^69.
unfoldable pub round53 : ℕ → ℕ
round53 n = round_bits 16 n 1 0

-- int64(float64(total) * 1.125) for the size of the total, and its negative with the sign of the total.
unfoldable pub penalty : ℤ → ℤ
penalty total =
    let size = λ (n : ℕ). round53 (9 * round53 n) / 8 in
    sub_ℕ (size (neg_part total)) (size (pos_part total))

unfoldable pub penalize : List (Bytes × Bool) → ℤ → Bytes × NamedValidator → NamedValidator
penalize fresh cost (name, v) =
    if is_some (lookup name fresh) then record v { proposer_priority = cost } else v

-- sort.Slice by name, for names that differ.
unfoldable pub insert_by_name : NamedValidator → List NamedValidator → List NamedValidator
insert_by_name v [] = v ∷ []
insert_by_name v (w ∷ ws) =
    let rest = insert_by_name v ws in
    if bytes_lt (account_name_string w.name) (account_name_string v.name)
    then w ∷ rest
    else v ∷ w ∷ ws

unfoldable pub sort_by_name : List NamedValidator → List NamedValidator
sort_by_name [] = []
sort_by_name (v ∷ vs) = insert_by_name v (sort_by_name vs)

-- The sorted slice that NewValidatorSet is given.
unfoldable pub updated_validators : ValidatorSet → List ValidatorUpdate → List NamedValidator
updated_validators set updates =
    let (vals, fresh) = apply_updates updates (current_validators set.validators [], []) in
    sort_by_name (map (penalize fresh (penalty (sum_power (pos 0) vals))) vals)

abbrev pub made : Validator.Result ValidatorSet → Option ValidatorSet
made (Validator.ok set) = some (with_incremented_priority set (pos 1))
made (Validator.err x) = none

-- `none` is the error.
unfoldable pub apply_validator_updates : ValidatorSet → List ValidatorUpdate → Option ValidatorSet
apply_validator_updates set updates =
    let vals = updated_validators set updates in
    if length vals == 0 then none else made (new_validator_set (map some vals))
