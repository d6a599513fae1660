-- ===== src/Engine/State/Machine/Crashing.antt =====
-- A commit in engine/state.go of a block that the node does not have, and how a node comes to lose it.
use leaderberry.Prelude.{
  ℕ, suc, ◌≡◌, refl, true, false, Option, none, some, ℤ, pos, ltb_ℤ, eqb_ℤ_refl, arith,
}
use leaderberry.Types.Vote.{Vote, Commit}
use leaderberry.Engine.VoteSet.{VoteSet, two_thirds_majority}
use leaderberry.Engine.HeightVoteSet.{precommits_of}
use leaderberry.Engine.State.{
  propose, commit, Env, State, enter_new_round, enter_commit, finalize_commit, handle_precommit,
  done, panicked, step_below,
}
use leaderberry.Types.Validator.Rotation.{get_proposer_for_round}
use leaderberry.Engine.State.Proposing.{is_proposer, start_round, enter_new_round_body}
use leaderberry.Engine.State.Counting.{
  is_for_block, handle_precommit_body, precommit_counted, reach_round,
}
use leaderberry.Engine.State.Committing.{
  finalize_found, enter_commit_body, block_to_apply, finalize_block, finalize_commit_body,
}
use leaderberry.Engine.State.Machine.{body, run, timed_out, handle_timeout}

module _ {Block World : Type 0} (e : Env Block World) where
  finalize_commit-panicked :
      (n : ℕ) (height : ℤ) (c : Commit) (s : State Block World)
      → block_to_apply s ≡ none
      → run e (suc n) (finalize_commit height c) s ≡ panicked
  unfolding run body finalize_commit_body finalize_block
  finalize_commit-panicked n height c s none_there = rw (none_there, finalize_block) refl

  finalize_found-panicked :
      (n : ℕ) (height : ℤ) (o : Option Commit) (s : State Block World)
      → block_to_apply s ≡ none
      → finalize_found e (run e (suc n)) height o s ≡ panicked
  unfolding finalize_found
  finalize_found-panicked n height none s none_there = refl
  finalize_found-panicked n height (some c) s none_there =
      finalize_commit-panicked n height c s none_there

  enter_commit-panicked :
      (n : ℕ) (s : State Block World)
      → step_below s.step commit ≡ true
      → block_to_apply s ≡ none
      → run e (suc (suc n)) (enter_commit s.height) s ≡ panicked
  unfolding run body enter_commit_body
  enter_commit-panicked n s early none_there =
      rw (eqb_ℤ_refl s.height, early) (finalize_found-panicked n s.height _ _ none_there)

  -- A node that is neither locked on a block nor has the proposed one panics on the precommit with which
  -- it has seen a majority of the precommits of a round for a block.
  pub handle_precommit-panicked :
      (n : ℕ) (vote : Vote) (vs : VoteSet) (s : State Block World)
      → s.locked_block ≡ none
      → s.proposal_block ≡ none
      → step_below s.step commit ≡ true
      → precommits_of s.votes vote.round ≡ some vs
      → is_for_block (two_thirds_majority vs) ≡ true
      → run e (suc (suc (suc n))) (handle_precommit vote) s ≡ panicked
  unfolding run body handle_precommit_body precommit_counted
  handle_precommit-panicked n vote vs s unlocked no_block early found majority =
      rw (found, precommit_counted, majority)
        (enter_commit-panicked n (reach_round vote s) early (ground (arith, unlocked, no_block)))

module _ {Block World : Type 0} (e : Env Block World) where
  restarted :
      (n : ℕ) (s : State Block World)
      → s.round ≡ pos 0
      → is_proposer e (get_proposer_for_round s.validator_set (pos 0)) ≡ false
      → run e (suc n) (enter_new_round s.height (pos 0)) s ≡ done (start_round e s.height (pos 0) s)
  unfolding run body enter_new_round_body
  restarted n s at other =
      let not_past : ltb_ℤ (pos 0) s.round ≡ false = ground (arith, at) in
      rw (eqb_ℤ_refl s.height, not_past, other) refl

  -- A commit timeout of the height, at a node that is in round 0 and is not its proposer, whatever the step
  -- that it has reached, takes the node back to the step of the proposal and drops the proposed block.
  pub handle_timeout_restarts :
      (n : ℕ) (s : State Block World)
      → s.round ≡ pos 0
      → is_proposer e (get_proposer_for_round s.validator_set (pos 0)) ≡ false
      → (t : State Block World) × (handle_timeout e
            (suc n)
            (record { height = s.height; round = pos 0; step = commit })
            s
          ≡ done t)
        × (t.round ≡ pos 0)
        × (t.step ≡ propose)
        × (t.proposal_block ≡ none)
  unfolding handle_timeout timed_out
  handle_timeout_restarts n s at other = (
    start_round e s.height (pos 0) s,
    (let not_past : ltb_ℤ (pos 0) s.round ≡ false = ground (arith, at) in
        rw (eqb_ℤ_refl s.height, not_past) (restarted n s at other)),
    unfold start_round in refl,
    unfold start_round in refl,
    unfold start_round in refl,
  )
