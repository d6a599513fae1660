-- ===== src/Types/Validator/Quorum.antt =====
-- The quorum of TwoThirdsMajority, and what two quorums have in common.
use leaderberry.Prelude.{
  ℕ, ◌+◌, ◌*◌, ◌≤◌, ◌<◌, ◌-◌, ◌/◌, ◌%◌, ◌≡◌, sym, ◌∙◌, Bool, false, ◌&&◌, ◌||◌, ◌==◌, some, pos,
  add64, eq-pos_of_positive, All-get_elem?, ◌≤ℤ◌, add64_pos, arith, if◌then◌else◌,
}
use leaderberry.Types.Validator.{ValidatorSet, NamedValidator, get_by_index, two_thirds_majority}
use leaderberry.Types.Validator.Tally.{
  tally, total, power, tally_overlap, tally_join, tally-le-total,
}
use leaderberry.Types.Validator.Member.{WellFormed, IsPositive, get_by_index_lem}

-- What TwoThirdsMajority returns for a positive total, with no wrap-around.
abbrev pub quorum : ℕ → ℕ
quorum t = t / 3 + t / 3 + (if t % 3 == 2 then 1 else 0) + 1

pub two_thirds_majority_lem :
    (vs : ValidatorSet) (t : ℕ)
    → vs.total_power ≡ pos t
    → 0 < t
    → t ≤ 9223372036854775807
    → two_thirds_majority vs ≡ pos (quorum t)
unfolding two_thirds_majority
two_thirds_majority_lem vs t e p b =
    ground (
      arith,
      add64_pos (t / 3) (t / 3),
      add64_pos (t / 3 + t / 3) 1,
      add64_pos (t / 3 + t / 3 + 1) 1,
    )

pub quorum_lem : (t : ℕ) → (2 * t < 3 * quorum t) × (3 * quorum t ≤ 2 * t + 3)
quorum_lem t = ground arith

-- In a set with positive total power up to 2^63 - 1, the quorum is a positive number that exceeds two
-- thirds of the total, and one less does not; nothing wraps around.
pub two_thirds_majority-least :
    (vs : ValidatorSet) (t : ℕ)
    → vs.total_power ≡ pos t
    → 0 < t
    → t ≤ 9223372036854775807
    → (q : ℕ) × (two_thirds_majority vs ≡ pos q) × (2 * t < 3 * q) × (3 * (q - 1) ≤ 2 * t) × (q ≤ t)
two_thirds_majority-least vs t e p b =
    (quorum t, two_thirds_majority_lem vs t e p b, ground arith, ground arith, ground arith)

pub WellFormed-two_thirds :
    (vs : ValidatorSet)
    → WellFormed vs
    → two_thirds_majority vs ≡ pos (quorum (total vs.validators))
WellFormed-two_thirds vs w =
    two_thirds_majority_lem vs (total vs.validators) w.total_lem w.occupied
      (omega (arith, w.bounded))

-- Two groups of validators of a well-formed set that each reach its quorum have members in common
-- with more than a third of the total power.
pub quorum_overlap :
    (vs : ValidatorSet) (p q : ℕ → Bool)
    → WellFormed vs
    → two_thirds_majority vs ≤ℤ pos (tally p vs.validators)
    → two_thirds_majority vs ≤ℤ pos (tally q vs.validators)
    → total vs.validators < 3 * tally (λ i. p i && q i) vs.validators
quorum_overlap vs p q w hp hq =
    let e = WellFormed-two_thirds vs w in
    overlap (total vs.validators) (tally p vs.validators) (tally q vs.validators)
      (tally (λ i. p i && q i) vs.validators) (rw e at hp) (rw e at hq)
      (tally_overlap p q vs.validators)
  where
    overlap :
        (t a b c : ℕ)
        → pos (quorum t) ≤ℤ pos a
        → pos (quorum t) ≤ℤ pos b
        → a + b ≤ t + c
        → t < 3 * c
    overlap t a b c h k o = omega (arith, quorum_lem t)

-- A validator that is counted for the first time adds its power, without overflow.
pub tally_one_more :
    (vals : ValidatorSet) (p : ℕ → Bool) (k : ℕ) (val : NamedValidator)
    → WellFormed vals
    → get_by_index vals k ≡ some val
    → p k ≡ false
    → add64 (pos (tally p vals.validators)) val.voting_power
      ≡ pos (tally (λ i. p i || k == i) vals.validators)
tally_one_more vals p k val w known new =
    let q = λ (i : ℕ). p i || k == i in
    let there = sym (get_by_index_lem vals k w) ∙ known in
    let joined = tally_join p q vals.validators k val there new (λ i. ground arith) in
    let positive =
      eq-pos_of_positive val.voting_power
        (All-get_elem? IsPositive vals.validators k val w.positive there) in
    ground (
      arith,
      joined,
      positive,
      tally-le-total q vals.validators,
      w.bounded,
      add64_pos (tally p vals.validators) (power val),
    )
