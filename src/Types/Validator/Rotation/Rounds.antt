-- ===== src/Types/Validator/Rotation/Rounds.antt =====
-- IncrementProposerPriority: rotations change priorities alone.
use leaderberry.Prelude.{
  ℕ, zero, suc, ◌<◌, ◌≡◌, refl, false, Option, none, some, List, [], ◌∷◌, ℤ, pos_part, arith,
  length, get_elem?, map, ◌==◌, Option-cases, inl, inr,
}
use leaderberry.Types.Validator.{NamedValidator, ValidatorSet, get_proposer, center_priorities}
use leaderberry.Types.Validator.Tally.{total, tally}
use leaderberry.Types.Validator.Member.{
  WellFormed, SameMember, SameMembers, SameMembers-map, SameMembers-trans, SameMembers-refl,
  SameMembers-set, SameMembers-length, WellFormed-SameMembers,
}
use leaderberry.Types.Validator.Center.{SameMembers-center}
use leaderberry.Types.Validator.Rotation.{
  raise, lower, charge, rotate_once, rotate, increment_proposer_priority,
}
use leaderberry.Types.Validator.Rotation.Best.{BestAt, get_proposer_lem}

SameMember-raise : (v : NamedValidator) → SameMember v (raise v)
unfolding raise
SameMember-raise v = (refl, refl, refl, refl)

SameMember-lower : (power : ℤ) (v : NamedValidator) → SameMember v (lower power v)
unfolding lower
SameMember-lower power v = (refl, refl, refl, refl)

SameMembers-charge :
    (power : ℤ) (vs : List NamedValidator) (p : Option ℕ) → SameMembers vs (charge power vs p)
unfolding charge
SameMembers-charge power vs none = SameMembers-refl vs
SameMembers-charge power vs (some p) = elim (Option-cases (get_elem? vs p)) [
  | inl e ↦ rw (e, charge) (SameMembers-refl vs)
  | inr (v, e) ↦
      rw (e, charge) (SameMembers-set vs p v (lower power v) e (SameMember-lower power v))
]

SameMembers-rotate_once :
    (power : ℤ) (vs : List NamedValidator) → SameMembers vs (rotate_once power vs)
unfolding rotate_once
SameMembers-rotate_once power vs =
    SameMembers-trans vs (map raise vs) _ (SameMembers-map raise vs SameMember-raise)
      (SameMembers-charge power (map raise vs) (get_proposer (map raise vs)))

SameMembers-rotate :
    (power : ℤ) (n : ℕ) (vs : List NamedValidator) → SameMembers vs (rotate power n vs)
unfolding rotate
SameMembers-rotate power zero vs = SameMembers-refl vs
SameMembers-rotate power (suc n) vs =
    SameMembers-trans vs (rotate_once power vs) _ (SameMembers-rotate_once power vs)
      (SameMembers-rotate power n (rotate_once power vs))

total_nonempty : (l : List NamedValidator) → 0 < total l → 0 < length l
unfolding total tally
total_nonempty [] h = elim h [ ]
total_nonempty (v ∷ l) h = omega arith

pub WellFormed-nonempty : (vs : ValidatorSet) → WellFormed vs → 0 < length vs.validators
WellFormed-nonempty vs w = total_nonempty vs.validators w.occupied

pub length-occupied : (l : List NamedValidator) → 0 < length l → (length l == 0) ≡ false
length-occupied l h = ground arith

-- A well-formed set, rotated any number of times, is well formed with the same members, whose
-- priorities alone differ, and its proposer is a member to whom getProposer prefers no other.
pub increment_proposer_priority-WellFormed :
    (vs : ValidatorSet) (times : ℤ)
    → WellFormed vs
    → WellFormed (increment_proposer_priority vs times)
      × SameMembers vs.validators (increment_proposer_priority vs times).validators
      × ((p : ℕ) × ((increment_proposer_priority vs times).proposer ≡ some p)
          × BestAt (increment_proposer_priority vs times).validators p)
unfolding increment_proposer_priority
increment_proposer_priority-WellFormed vs times w =
    let some_given = WellFormed-nonempty vs w in
    let vals = center_priorities (rotate vs.total_power (pos_part times) vs.validators) in
    let same =
      SameMembers-trans vs.validators (rotate vs.total_power (pos_part times) vs.validators) vals
        (SameMembers-rotate vs.total_power (pos_part times) vs.validators) (SameMembers-center _) in
    rw (length-occupied vs.validators some_given) (
      WellFormed-SameMembers vs (record vs { validators = vals; proposer = get_proposer vals }) w
          same refl refl refl,
      same,
      get_proposer_lem vals (rw (SameMembers-length vs.validators vals same) at some_given),
    )
