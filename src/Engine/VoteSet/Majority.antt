-- ===== src/Engine/VoteSet/Majority.antt =====
-- The two-thirds majority of a vote set: when there is one, that there is one only, and that two
-- nodes with different ones have caught more than a third of the voting power voting twice.
use leaderberry.Prelude.{
  ℕ, ◌*◌, ◌<◌, ◌≡◌, ◌≢◌, ◌↔◌, refl, sym, subst, Bool, true, false, ◌&&◌, Option, none, some, ℤ, pos,
  ◌≤ℤ◌, leb_ℤ, arith, Bytes, bytes_eq, bytes_eq_refl, bytes_eq_sound, lookup, nat_key, bytes_key,
  inl, inr, Option-cases, Bool-cases,
}
use leaderberry.Types.Vote.{Vote, Crypto}
use leaderberry.Types.Validator
use leaderberry.Types.Validator.{ValidatorSet}
use leaderberry.Types.Validator.Tally.{tally, total, tally_none}
use leaderberry.Types.Validator.Quorum.{quorum, quorum_overlap, WellFormed-two_thirds}
use leaderberry.Engine.VoteSet.{VoteSet, block_hash_key, add_vote, store_vote, has_two_thirds_any}
use leaderberry.Engine.VoteSet.Counted.{Counted, voted_for, is_vote_for, voted_power, power_for}
use leaderberry.Engine.VoteSet.Outcome.{add_vote-Outcome}

abbrev pub HasQuorum : VoteSet → Bytes → Type 0
HasQuorum vs key = Validator.two_thirds_majority vs.validator_set ≤ℤ pos (power_for vs key)

-- A vote is for one block key.
is_vote_for_one :
    (o : Option Vote) (a b : Bytes) → a ≢ b → is_vote_for a o && is_vote_for b o ≡ false
is_vote_for_one none a b h = refl
is_vote_for_one (some v) a b h = ground (
  arith,
  bytes_eq_sound (block_hash_key v.block_hash) a,
  bytes_eq_sound (block_hash_key v.block_hash) b,
  h,
)

-- In a counted vote set at most one block, the nil block included, has a quorum of voting power.
pub quorum_unique :
    (c : Crypto) (vs : VoteSet) (a b : Bytes)
    → Counted c vs
    → HasQuorum vs a
    → HasQuorum vs b
    → a ≡ b
quorum_unique c vs a b w ha hb = elim (Bool-cases (bytes_eq a b)) [
  | inl e ↦ bytes_eq_sound a b e
  | inr e ↦ absurd (
      omega (
        arith,
        quorum_overlap vs.validator_set (voted_for vs a) (voted_for vs b) w.valid_set ha hb,
        tally_none (λ i. voted_for vs a i && voted_for vs b i) vs.validator_set.validators
            (λ i. is_vote_for_one (lookup i vs.votes) a b (differ e)),
      ))
]
  where
    differ : bytes_eq a b ≡ false → a ≢ b
    differ e q = ground (arith, e, q, bytes_eq_refl b)

-- `maj23` of a counted vote set names a block exactly when that block has a quorum of the power.
pub maj23-HasQuorum :
    (c : Crypto) (vs : VoteSet) (key : Bytes)
    → Counted c vs
    → (vs.maj23 ≡ some key) ↔ HasQuorum vs key
maj23-HasQuorum c vs key w = (
  λ e. (w.majority_lem key e).0,
  λ q. elim (Option-cases vs.maj23) [
    | inl e ↦ absurd (omega (arith, w.no_majority_lem key e))
    | inr (k, e) ↦ ground (arith, e, quorum_unique c vs k key w (w.majority_lem k e).0 q)
  ],
)

store_vote-keeps-maj23 :
    (vs : VoteSet) (vote : Vote) (val : Validator.NamedValidator) (key : Bytes)
    → vs.maj23 ≡ some key
    → (store_vote vs vote val).maj23 ≡ some key
unfolding store_vote
store_vote-keeps-maj23 vs vote val key e = ground (arith, e)

-- A majority once reached stays that of the same block, whatever votes come after.
pub add_vote-keeps-maj23 :
    (c : Crypto) (vs : VoteSet) (generation : ℕ) (now : ℤ) (vote : Vote) (key : Bytes)
    → vs.maj23 ≡ some key
    → (add_vote c vs generation now vote).0.maj23 ≡ some key
add_vote-keeps-maj23 c vs generation now vote key e =
    elim (add_vote-Outcome c vs vote generation now) [
      | inl (same, _) ↦ rw same e
      | inr (val, _, after, _) ↦ rw after (store_vote-keeps-maj23 vs vote val key e)
    ]

abbrev both_voted : VoteSet → Bytes → VoteSet → Bytes → ℕ → Bool
both_voted vs a ws b i = voted_for vs a i && voted_for ws b i

-- Two counted vote sets over the same validators, on any two nodes, whose majorities are for two keys:
-- the validators that are recorded with a vote for the first in the one and a vote for the second in the
-- other have more than a third of the total power.
pub conflicting_majorities :
    (c : Crypto) (vs ws : VoteSet) (a b : Bytes)
    → Counted c vs
    → Counted c ws
    → vs.validator_set ≡ ws.validator_set
    → vs.maj23 ≡ some a
    → ws.maj23 ≡ some b
    → total vs.validator_set.validators
      < 3 * tally (both_voted vs a ws b) vs.validator_set.validators
conflicting_majorities c vs ws a b w x same ea eb =
    quorum_overlap vs.validator_set (voted_for vs a) (voted_for ws b) w.valid_set
      (w.majority_lem a ea).0
      (subst
        (λ (s : ValidatorSet).
          Validator.two_thirds_majority s ≤ℤ pos (tally (voted_for ws b) s.validators))
        (sym same) (x.majority_lem b eb).0)

-- HasTwoThirdsAny answers whether the validators that voted have more than two thirds of the power.
pub has_two_thirds_any_lem :
    (c : Crypto) (vs : VoteSet)
    → Counted c vs
    → (has_two_thirds_any vs ≡ true) ↔ (2 * total vs.validator_set.validators < 3 * voted_power vs)
unfolding has_two_thirds_any
has_two_thirds_any_lem c vs w =
    rw (WellFormed-two_thirds vs.validator_set w.valid_set, w.sum_lem)
      (lem (total vs.validator_set.validators) (voted_power vs))
  where
    lem : (t p : ℕ) → (leb_ℤ (pos (quorum t)) (pos p) ≡ true) ↔ (2 * t < 3 * p)
    lem t p = ground arith
