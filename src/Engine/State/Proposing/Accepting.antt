-- ===== src/Engine/State/Proposing/Accepting.antt =====
-- Which votes make validatePOL of engine/state.go accept a proposal.
use leaderberry.Prelude.{
  ℕ, ◌≡◌, refl, sym, ◌∙◌, subst, ap, Bool, true, false, ◌||◌, Option, none, some, List, [], ◌∷◌,
  All, ℤ, pos, ◌≤ℤ◌, ◌<◌, add64, ◌==◌, ==_iff, insert, lookup, lookup-insert, nat_key, is_some,
  arith, eqb_ℤ_iff, length, Bool-cases, inl, inr,
}
use leaderberry.Types.Hash.{Hash, hash_equal, hash_equal_refl}
use leaderberry.Types.Vote.{Vote, vote_type_prevote}
use leaderberry.Types.Validator.{ValidatorSet, get_by_index, two_thirds_majority}
use leaderberry.Types.Validator.Tally.{tally, tally_eq, tally_none}
use leaderberry.Types.Validator.Member.{WellFormed}
use leaderberry.Types.Validator.Quorum.{tally_one_more}
use leaderberry.PrivVal.FilePv.{Proposal, block_hash}
use leaderberry.Engine.State.{Env}
use leaderberry.Engine.State.Proposing.{names, pol_vote_power, pol_power, validate_pol}
use leaderberry.Engine.State.Proposing.Pol.{
  has_index, IsPolVote, loop_inversion, union, enough_cases, validate_pol_sound,
}

-- No two of the votes are of one validator.
abbrev pub NoRepeats : List Vote → Type 0
NoRepeats [] = Unit
NoRepeats (vote ∷ votes) = (has_index votes vote.validator_index ≡ false) × NoRepeats votes

names_lem : (o : Option Hash) (h : Hash) → o ≡ some h → names o h ≡ true
names_lem none h q = cc
names_lem (some a) h q =
    let same : a ≡ h = cc in subst (λ x. hash_equal x h ≡ true) (sym same) (hash_equal_refl h)

module _ {Block World : Type 0} (e : Env Block World) (vals : ValidatorSet) (p : Proposal Block)
    (hash : Hash) where
  pol_vote_power_lem :
      (vote : Vote) (good : IsPolVote e vals p hash vote)
      → pol_vote_power e p hash vote (get_by_index vals vote.validator_index)
        ≡ some good.0.voting_power
  pol_vote_power_lem vote (val, known, typ, height, round, names_block, named, signed) = rw known (
      unfold pol_vote_power in
      ground (
        arith,
        (eqb_ℤ_iff vote.type' vote_type_prevote).1 typ,
        (eqb_ℤ_iff vote.height p.height).1 height,
        (eqb_ℤ_iff vote.round p.pol_round).1 round,
        names_lem vote.block_hash hash names_block,
        named,
        signed,
      ))

  -- Votes that the loop accepts are of validators that differ from each other and from those seen.
  pol_power-NoRepeats :
      (seen : List (ℕ × Bool)) (power r : ℤ) (votes : List Vote)
      → pol_power e vals p hash seen power votes ≡ some r
      → NoRepeats votes × ((i : ℕ) → is_some (lookup i seen) ≡ true → has_index votes i ≡ false)
  pol_power-NoRepeats seen power r [] q = (tt, λ i h. refl)
  pol_power-NoRepeats seen power r (vote ∷ votes) q =
      let (more, fresh, step, rest) = loop_inversion e vals p hash seen power r vote votes q in
      let k = vote.validator_index in
      let (differ, unseen) =
        pol_power-NoRepeats (insert k true seen) (add64 power more) r votes rest in
      (
        (unseen k (ground (arith, lookup-insert k k true seen, ==_iff k k)), differ),
        λ i h. elim (Bool-cases (k == i)) [
          | inl t ↦ absurd (
              let was : k ≡ i = ground (arith, t) in
              ground (arith, fresh, h, ap (λ j. is_some (lookup {V = Bool} j seen)) was))
          | inr t ↦ ground (arith, t, h, unseen i, lookup-insert k i true seen)
        ],
      )

  pol_power_lem :
      (f : ℕ → Bool) (seen : List (ℕ × Bool)) (votes : List Vote)
      → WellFormed vals
      → All (IsPolVote e vals p hash) votes
      → NoRepeats votes
      → ((i : ℕ) → has_index votes i ≡ true → (f i ≡ false) × (is_some (lookup i seen) ≡ false))
      → pol_power e vals p hash seen (pos (tally f vals.validators)) votes
        ≡ some (pos (tally (union e vals p hash f votes) vals.validators))
  unfolding pol_power
  pol_power_lem f seen [] w all differ new =
      ap (λ n. some (pos n)) (tally_eq f _ vals.validators (λ i. ground arith))
  pol_power_lem f seen (vote ∷ votes) w (good, all) (once, differ) new =
      let k = vote.validator_index in
      let g = λ (i : ℕ). f i || k == i in
      let (out, unseen) = new k (ground (arith, ==_iff k k)) in
      rw (unseen, pol_vote_power_lem vote good, tally_one_more vals f k good.0 w good.1 out)
        (pol_power_lem g (insert k true seen) votes w all differ
            (λ i h. ground (arith, h, new i, once, lookup-insert k i true seen))
          ∙ ap (λ n. some (pos n)) (tally_eq _ _ vals.validators (λ i. ground arith)))

module _ {Block World : Type 0} (e : Env Block World) (vals : ValidatorSet)
    (p : Proposal Block) where
  -- Votes of different validators, good prevotes for the block all, with the quorum.
  abbrev pub IsPol : Type 0
  IsPol =
      (0 < length p.pol_votes)
      × All (IsPolVote e vals p (block_hash e.signing p.block)) p.pol_votes
      × NoRepeats p.pol_votes
      × (two_thirds_majority vals ≤ℤ pos (tally (has_index p.pol_votes) vals.validators))

  pub validate_pol-IsPol : WellFormed vals → validate_pol e vals p ≡ true → IsPol
  unfolding validate_pol
  validate_pol-IsPol w q =
      let hash = block_hash e.signing p.block in
      let (all, quorum) = validate_pol_sound e vals p w q in
      let some_votes : 0 < length p.pol_votes = ground (arith, q) in
      let (r, sum, _) =
        enough_cases e vals p (pol_power e vals p hash [] (pos 0) p.pol_votes)
          (ground (arith, q)) in
      (some_votes, all, (pol_power-NoRepeats e vals p hash [] (pos 0) r p.pol_votes sum).0, quorum)

  pub IsPol-validate_pol : WellFormed vals → IsPol → validate_pol e vals p ≡ true
  unfolding validate_pol lookup
  IsPol-validate_pol w (some_votes, all, differ, quorum) =
      let hash = block_hash e.signing p.block in
      let none_yet = tally_none (λ i. false) vals.validators (λ i. refl) in
      let sum =
        pol_power_lem e vals p hash (λ i. false) [] p.pol_votes w all differ
          (λ i h. (refl, refl)) in
      let same =
        tally_eq (union e vals p hash (λ i. false) p.pol_votes) (has_index p.pol_votes)
          vals.validators (λ i. refl) in
      let start : pol_power e vals p hash [] (pos 0) p.pol_votes
          ≡ some (pos (tally (has_index p.pol_votes) vals.validators)) =
        ap (λ n. pol_power e vals p hash [] (pos n) p.pol_votes) (sym none_yet)
        ∙ (sum ∙ ap (λ n. some (pos n)) same) in
      rw start (ground (arith, some_votes, quorum))
