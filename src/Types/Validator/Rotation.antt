-- ===== src/Types/Validator/Rotation.antt =====
-- The rotation of proposers in types/validator.go: IncrementProposerPriority, Copy,
-- WithIncrementedPriority and GetProposerForRound.
pub mod Best
pub mod Rounds
pub mod Copies
pub mod Exact
pub mod Centered
pub mod Turns
use leaderberry.Prelude.{
  ℕ, zero, suc, Bool, ◌&&◌, Option, none, some, List, [], ◌∷◌, map, ℤ, pos, negsuc, pos_part, add64,
  sub64, ltb_ℤ, leb_ℤ, ◌==◌, if◌then◌else◌, length, get_elem?, set, Bytes, lookup, insert, nat_key,
  bytes_key,
}
use leaderberry.Types.Account.{account_name_string}
use leaderberry.Types.Validator.{
  NamedValidator, ValidatorSet, copy_validator, copy_validator?, deref, get_proposer,
  center_priorities,
}

-- PriorityWindowSize / 2, and its negative.
abbrev pub max_priority : ℤ
max_priority = pos 1152921504606846976

abbrev pub min_priority : ℤ
min_priority = negsuc 1152921504606846975

unfoldable pub raised : NamedValidator → ℤ
raised v =
    if ltb_ℤ (pos 0) v.voting_power && ltb_ℤ (sub64 max_priority v.voting_power) v.proposer_priority
    then max_priority
    else let p = add64 v.proposer_priority v.voting_power in
      if ltb_ℤ max_priority p then max_priority else p

unfoldable pub raise : NamedValidator → NamedValidator
raise v = record v { proposer_priority = raised v }

unfoldable pub lowered : ℤ → NamedValidator → ℤ
lowered total v =
    if ltb_ℤ (pos 0) total && ltb_ℤ v.proposer_priority (add64 min_priority total)
    then min_priority
    else let p = sub64 v.proposer_priority total in if ltb_ℤ p min_priority then min_priority else p

unfoldable pub lower : ℤ → NamedValidator → NamedValidator
lower total v = record v { proposer_priority = lowered total v }

-- The proposer pays the total power.
unfoldable pub charge : ℤ → List NamedValidator → Option ℕ → List NamedValidator
charge total vals none = vals
charge total vals (some p) = elim (get_elem? vals p) [
  | none ↦ vals
  | some v ↦ set vals p (lower total v)
]

unfoldable pub rotate_once : ℤ → List NamedValidator → List NamedValidator
rotate_once total vals = let up = map raise vals in charge total up (get_proposer up)

unfoldable pub rotate : ℤ → ℕ → List NamedValidator → List NamedValidator
rotate total zero vals = vals
rotate total (suc n) vals = rotate total n (rotate_once total vals)

-- A negative `times` makes no round.
unfoldable pub increment_proposer_priority : ValidatorSet → ℤ → ValidatorSet
increment_proposer_priority vs times =
    if length vs.validators == 0
    then vs
    else let vals = center_priorities (rotate vs.total_power (pos_part times) vs.validators) in
      record vs { validators = vals; proposer = get_proposer vals }

-- The maps that Copy builds, from position `i` on.
unfoldable pub names_from : ℕ → List NamedValidator → List (Bytes × ℕ) → List (Bytes × ℕ)
names_from i [] m = m
names_from i (v ∷ vs) m = names_from (suc i) vs (insert (account_name_string v.name) i m)

unfoldable pub indices_from : ℕ → List NamedValidator → List (ℕ × ℕ) → List (ℕ × ℕ)
indices_from i [] m = m
indices_from i (v ∷ vs) m = indices_from (suc i) vs (insert v.index i m)

unfoldable pub copied_proposer :
    List NamedValidator → List (ℕ × ℕ) → Option NamedValidator → Option ℕ
copied_proposer vals by_index none = none
copied_proposer vals by_index (some v) = elim (lookup v.index by_index) [
  | some p ↦ some p
  | none ↦ get_proposer vals
]

unfoldable pub copy : ValidatorSet → ValidatorSet
copy vs =
    let vals = map copy_validator vs.validators in
    let by_index = indices_from 0 vals [] in
    record {
      validators = vals;
      proposer = copied_proposer vals by_index (deref vs.validators vs.proposer);
      total_power = vs.total_power;
      by_name = names_from 0 vals [];
      by_index = by_index;
    }

unfoldable pub with_incremented_priority : ValidatorSet → ℤ → ValidatorSet
with_incremented_priority vs times = increment_proposer_priority (copy vs) times

unfoldable pub get_proposer_for_round : ValidatorSet → ℤ → Option NamedValidator
get_proposer_for_round vs round =
    if leb_ℤ round (pos 0)
    then copy_validator? (deref vs.validators vs.proposer)
    else let next = with_incremented_priority vs round in
      copy_validator? (deref next.validators next.proposer)
