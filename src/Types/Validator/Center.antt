-- ===== src/Types/Validator/Center.antt =====
-- centerPriorities, and the start values of initProposerPriorities: only priorities change.
use leaderberry.Prelude.{refl, List, ℤ, map, Bool-cases, inl, inr}
use leaderberry.Types.Validator.{
  NamedValidator, ValidatorSet, shift_priority, seed_priority, average_priority, center_priorities,
  init_proposer_priorities, all_zero_priorities, finish,
}
use leaderberry.Types.Validator.Member.{
  SameMember, SameMembers, SameMembers-map, SameMembers-trans, SameMembers-refl,
}

SameMember-shift : (avg : ℤ) (v : NamedValidator) → SameMember v (shift_priority avg v)
unfolding shift_priority
SameMember-shift avg v = (refl, refl, refl, refl)

SameMember-seed : (v : NamedValidator) → SameMember v (seed_priority v)
unfolding seed_priority
SameMember-seed v = (refl, refl, refl, refl)

pub SameMembers-center : (vs : List NamedValidator) → SameMembers vs (center_priorities vs)
unfolding center_priorities
SameMembers-center vs = SameMembers-map _ vs (SameMember-shift (average_priority vs))

SameMembers-init : (vs : List NamedValidator) → SameMembers vs (init_proposer_priorities vs)
unfolding init_proposer_priorities
SameMembers-init vs =
    SameMembers-trans vs (map seed_priority vs) _ (SameMembers-map seed_priority vs SameMember-seed)
      (SameMembers-center (map seed_priority vs))

pub SameMembers-finish : (vs : ValidatorSet) → SameMembers vs.validators (finish vs).validators
unfolding finish
SameMembers-finish vs = elim (Bool-cases (all_zero_priorities vs.validators)) [
  | inl e ↦ rw e (SameMembers-init vs.validators)
  | inr e ↦ rw e (SameMembers-refl vs.validators)
]
