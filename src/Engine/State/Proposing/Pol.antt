-- ===== src/Engine/State/Proposing/Pol.antt =====
-- What validatePOL of engine/state.go has established of the votes of a proposal that it accepts.
use leaderberry.Prelude.{
  ℕ, ◌≡◌, refl, sym, ◌∙◌, subst, ap, Bool, true, false, ◌||◌, Option, none, some, List, [], ◌∷◌,
  All, ℤ, pos, ◌≤ℤ◌, add64, ◌==◌, if◌then◌else◌, insert, lookup, lookup-insert, nat_key, is_some,
  arith,
}
use leaderberry.Types.Hash.{Hash, hash_equal_sound}
use leaderberry.Types.Account.{account_name_equal}
use leaderberry.Types.Vote.{Vote, vote_type_prevote, verify_vote_signature}
use leaderberry.Types.Validator.{ValidatorSet, NamedValidator, get_by_index, two_thirds_majority}
use leaderberry.Types.Validator.Tally.{tally, tally_eq, tally_none}
use leaderberry.Types.Validator.Member.{WellFormed}
use leaderberry.Types.Validator.Quorum.{tally_one_more}
use leaderberry.PrivVal.FilePv.{Proposal, block_hash}
use leaderberry.Engine.State.{Env}
use leaderberry.Engine.State.Proposing.{names, pol_vote_power, pol_power, enough, validate_pol}

-- The validators that the votes are of.
abbrev pub has_index : List Vote → ℕ → Bool
has_index [] i = false
has_index (vote ∷ votes) i = vote.validator_index == i || has_index votes i

module _ {Block World : Type 0} (e : Env Block World) (vals : ValidatorSet) (p : Proposal Block)
    (hash : Hash) where
  -- A prevote of the POL round for the block, signed by a validator of the set under its index and name.
  abbrev pub IsPolVote : Vote → Type 0
  IsPolVote vote =
      (val : NamedValidator) × (get_by_index vals vote.validator_index ≡ some val)
      × (vote.type' ≡ vote_type_prevote)
      × (vote.height ≡ p.height)
      × (vote.round ≡ p.pol_round)
      × (vote.block_hash ≡ some hash)
      × (account_name_equal val.name vote.validator ≡ true)
      × (verify_vote_signature e.signing.crypto e.chain_id vote val.public_key ≡ true)

  names_sound : (o : Option Hash) (h : Hash) → names o h ≡ true → o ≡ some h
  names_sound none h q = cc
  names_sound (some a) h q = ap some (hash_equal_sound a h q)

  vote_inversion :
      (vote : Vote) (o : Option NamedValidator) (more : ℤ)
      → get_by_index vals vote.validator_index ≡ o
      → pol_vote_power e p hash vote o ≡ some more
      → (val : NamedValidator) × (get_by_index vals vote.validator_index ≡ some val)
        × IsPolVote vote
        × (more ≡ val.voting_power)
  unfolding pol_vote_power
  vote_inversion vote none more known q = cc
  vote_inversion vote (some val) more known q =
      let read = names_sound vote.block_hash hash in
      (
        val,
        known,
        (
          val,
          known,
          ground (arith, q),
          ground (arith, q),
          ground (arith, q),
          ground (arith, q, read),
          ground (arith, q),
          ground (arith, q),
        ),
        ground (arith, q),
      )

  pub loop_inversion :
      (seen : List (ℕ × Bool)) (power r : ℤ) (vote : Vote) (votes : List Vote)
      → pol_power e vals p hash seen power (vote ∷ votes) ≡ some r
      → (more : ℤ) × (is_some (lookup vote.validator_index seen) ≡ false)
        × (pol_vote_power e p hash vote (get_by_index vals vote.validator_index) ≡ some more)
        × (pol_power e vals p hash (insert vote.validator_index true seen) (add64 power more) votes
            ≡ some r)
  unfolding pol_power
  loop_inversion seen power r vote votes q =
      go (is_some (lookup vote.validator_index seen))
        (pol_vote_power e p hash vote (get_by_index vals vote.validator_index)) q
    where
      go :
          (b : Bool) (m : Option ℤ)
          → (if b then none else elim m [
            | none ↦ none
            | some more ↦
                pol_power e vals p hash
                  (insert vote.validator_index true seen)
                  (add64 power more)
                  votes
          ])
            ≡ some r
          → (more : ℤ) × (b ≡ false)
            × (m ≡ some more)
            × (pol_power e vals p hash
                  (insert vote.validator_index true seen)
                  (add64 power more)
                  votes
                ≡ some r)
      go true m q = cc
      go false none q = cc
      go false (some more) q = (more, refl, refl, q)

  abbrev pub union : (ℕ → Bool) → List Vote → ℕ → Bool
  union f votes i = f i || has_index votes i

  -- The power that the loop sums up is that of the validators of the votes, each of them once.
  pol_power-has_index :
      (f : ℕ → Bool) (seen : List (ℕ × Bool)) (votes : List Vote) (r : ℤ)
      → WellFormed vals
      → ((i : ℕ) → f i ≡ true → is_some (lookup i seen) ≡ true)
      → pol_power e vals p hash seen (pos (tally f vals.validators)) votes ≡ some r
      → All IsPolVote votes × (r ≡ pos (tally (union f votes) vals.validators))
  pol_power-has_index f seen [] r w s q =
      unfold pol_power in
      (tt, ground (arith, q, tally_eq f (union f []) vals.validators (λ i. ground arith)))
  pol_power-has_index f seen (vote ∷ votes) r w s q =
      let (more, fresh, step, rest) = loop_inversion seen _ r vote votes q in
      let (val, known, good, is) = vote_inversion vote _ more refl step in
      let g = λ (i : ℕ). f i || vote.validator_index == i in
      let (all, sum) =
        pol_power-has_index g (insert vote.validator_index true seen) votes r w
          (λ i h. ground (arith, h, s i, lookup-insert vote.validator_index i true seen))
          (subst
            (λ (z : ℤ).
              pol_power e vals p hash (insert vote.validator_index true seen) z votes ≡ some r)
            (ap (add64 (pos (tally f vals.validators))) is
              ∙ tally_one_more vals f vote.validator_index val w known
                  (ground (arith, s vote.validator_index, fresh)))
            rest) in
      (
        (good, all),
        sum
            ∙ ap pos (
                tally_eq (union g votes) (union f (vote ∷ votes)) vals.validators
                  (λ i. ground arith)),
      )

module _ {Block World : Type 0} (e : Env Block World) (vals : ValidatorSet)
    (p : Proposal Block) where
  pub enough_cases :
      (o : Option ℤ)
      → enough vals o ≡ true
      → (r : ℤ) × (o ≡ some r) × (two_thirds_majority vals ≤ℤ r)
  enough_cases none q = cc
  enough_cases (some r) q = (r, refl, ground (arith, q))

  -- Of a proposal that validatePOL accepts, under a well-formed validator set, every POL vote is a prevote
  -- for the proposed block, at the proposal's height and in its POL round, signed by the validator at its
  -- index and of its name; and the validators of the votes have the quorum of the set.
  pub validate_pol_sound :
      WellFormed vals
      → validate_pol e vals p ≡ true
      → All (IsPolVote e vals p (block_hash e.signing p.block)) p.pol_votes
        × (two_thirds_majority vals ≤ℤ pos (tally (has_index p.pol_votes) vals.validators))
  unfolding validate_pol
  validate_pol_sound w q =
      let hash = block_hash e.signing p.block in
      let (r, sum, reached) =
        enough_cases (pol_power e vals p hash [] (pos 0) p.pol_votes) (ground (arith, q)) in
      let (all, is) =
        pol_power-has_index e vals p hash (λ i. false) [] p.pol_votes r w (λ i h. cc)
          (subst (λ (z : ℤ). pol_power e vals p hash [] z p.pol_votes ≡ some r)
            (ap pos (sym (tally_none (λ i. false) vals.validators (λ i. refl)))) sum) in
      (all, subst (λ (z : ℤ). two_thirds_majority vals ≤ℤ z) is reached)
