-- ===== src/Engine/HeightVoteSet/Keeping.antt =====
-- What AddVote on a height vote set leaves as it was: whom it is for, and the majorities there are.
use leaderberry.Prelude.{
  ◌≡◌, refl, true, some, ℤ, List, eqb_ℤ, eqb_ℤ_iff, arith, Bytes, lookup, lookup-insert, int_key,
  inl, inr, Bool-cases,
}
use leaderberry.Types.Vote.{Vote, Crypto, vote_type_prevote, vote_type_precommit}
use leaderberry.Engine.VoteSet.{VoteSet, Result}
use leaderberry.Engine.VoteSet.Majority.{add_vote-keeps-maj23}
use leaderberry.Engine.HeightVoteSet.{
  HeightVoteSet, vote_set_at, put_prevotes, put_precommits, dispatch_vote, add_vote,
}

-- The prevotes of a round have reached the majority of a block key.
abbrev pub HasPrevoteMajority : HeightVoteSet → ℤ → Bytes → Type 0
HasPrevoteMajority hvs round key =
    (vs : VoteSet) × (lookup round hvs.prevotes ≡ some vs) × (vs.maj23 ≡ some key)

-- Whom a height vote set is for.
abbrev pub SameScope : HeightVoteSet → HeightVoteSet → Type 0
SameScope a b =
    (a.chain_id ≡ b.chain_id) × (a.height ≡ b.height) × (a.validator_set ≡ b.validator_set)

dispatch_vote-SameScope :
    (add : VoteSet → VoteSet × Result) (hvs : HeightVoteSet) (vote : Vote)
    → SameScope (dispatch_vote add hvs vote).0 hvs
unfolding dispatch_vote put_prevotes put_precommits
dispatch_vote-SameScope add hvs vote = elim (Bool-cases (eqb_ℤ vote.height hvs.height)) [
  | inr e ↦ rw e (refl, refl, refl)
  | inl e ↦ rw e (elim (Bool-cases (eqb_ℤ vote.type' vote_type_prevote)) [
    | inl e ↦ rw e (refl, refl, refl)
    | inr e ↦ rw e (elim (Bool-cases (eqb_ℤ vote.type' vote_type_precommit)) [
      | inl e ↦ rw e (refl, refl, refl)
      | inr e ↦ rw e (refl, refl, refl)
    ])
  ])
]

pub add_vote-SameScope :
    (c : Crypto) (hvs : HeightVoteSet) (now : ℤ) (vote : Vote)
    → SameScope (add_vote c hvs now vote).0 hvs
unfolding add_vote
add_vote-SameScope c hvs now vote = dispatch_vote-SameScope _ hvs vote

put_prevotes-majority :
    (hvs : HeightVoteSet) (vs old : VoteSet) (r : Result) (at round : ℤ) (key : Bytes)
    → lookup round hvs.prevotes ≡ some old
    → old.maj23 ≡ some key
    → (eqb_ℤ at round ≡ true → vs.maj23 ≡ some key)
    → HasPrevoteMajority (put_prevotes hvs at (vs, r)).0 round key
unfolding put_prevotes
put_prevotes-majority hvs vs old r at round key e m h = elim (Bool-cases (eqb_ℤ at round)) [
  | inl q ↦ (vs, ground (arith, q, lookup-insert at round vs hvs.prevotes), h q)
  | inr q ↦ (old, ground (arith, q, e, lookup-insert at round vs hvs.prevotes), m)
]

vote_set_at_found :
    (hvs : HeightVoteSet) (sets : List (ℤ × VoteSet)) (vs : VoteSet) (at round t : ℤ)
    → eqb_ℤ at round ≡ true
    → lookup round sets ≡ some vs
    → vote_set_at hvs sets at t ≡ vs
unfolding vote_set_at
vote_set_at_found hvs sets vs at round t q e = ground (arith, e, (eqb_ℤ_iff at round).0 q)

dispatch_vote-majority :
    (add : VoteSet → VoteSet × Result) (hvs : HeightVoteSet) (vote : Vote) (round : ℤ) (key : Bytes)
    → ((vs : VoteSet) → vs.maj23 ≡ some key → (add vs).0.maj23 ≡ some key)
    → HasPrevoteMajority hvs round key
    → HasPrevoteMajority (dispatch_vote add hvs vote).0 round key
unfolding dispatch_vote put_precommits
dispatch_vote-majority add hvs vote round key h (vs, e, m) =
    elim (Bool-cases (eqb_ℤ vote.height hvs.height)) [
      | inr f ↦ rw f (vs, e, m)
      | inl f ↦ rw f (elim (Bool-cases (eqb_ℤ vote.type' vote_type_prevote)) [
        | inl f ↦ rw f (
            put_prevotes-majority hvs _ vs _ vote.round round key e m
              (λ q. h _ (rw (vote_set_at_found hvs hvs.prevotes vs vote.round round _ q e) m)))
        | inr f ↦ rw f (elim (Bool-cases (eqb_ℤ vote.type' vote_type_precommit)) [
          | inl f ↦ rw f (vs, e, m)
          | inr f ↦ rw f (vs, e, m)
        ])
      ])
    ]

-- The prevotes of a round that have reached the majority of a block keep it, whatever vote is added.
pub add_vote-keeps-HasPrevoteMajority :
    (c : Crypto) (hvs : HeightVoteSet) (now : ℤ) (vote : Vote) (round : ℤ) (key : Bytes)
    → HasPrevoteMajority hvs round key
    → HasPrevoteMajority (add_vote c hvs now vote).0 round key
unfolding add_vote
add_vote-keeps-HasPrevoteMajority c hvs now vote round key =
    dispatch_vote-majority _ hvs vote round key
      (λ vs. add_vote-keeps-maj23 c vs hvs.generation now vote key)
