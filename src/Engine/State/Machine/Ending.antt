-- ===== src/Engine/State/Machine/Ending.antt =====
-- The calls that the methods of engine/state.go make of each other end, unless SkipTimeoutCommit is set: they
-- go eleven deep at most.
use leaderberry.Prelude.{
  ℕ, zero, suc, ◌≤◌, ◌≡◌, false, not, ◌&&◌, ◌||◌, Option, none, some, List, ℤ, eqb_ℤ, eqb_ℤ_iff,
  ltb_ℤ, arith,
}
use leaderberry.Types.Hash.{hash_equal}
use leaderberry.Types.Vote.{Vote, Commit}
use leaderberry.Types.Validator.{ValidatorSet}
use leaderberry.PrivVal.FilePv.{block_hash}
use leaderberry.Engine.VoteSet.{
  VoteSet, two_thirds_majority, has_two_thirds_majority, has_two_thirds_any,
}
use leaderberry.Engine.HeightVoteSet.{prevotes_of, precommits_of}
use leaderberry.Engine.State.{
  ValidatorUpdate, prevote, prevote_wait, precommit, precommit_wait, commit, Env, State, Call,
  enter_new_round, enter_prevote, enter_prevote_wait, enter_precommit, enter_precommit_wait,
  create_proposal, enter_commit, finalize_commit, sign_and_send, handle_prevote, handle_precommit,
  Outcome, step_is, step_below, prevotes_at,
}
use leaderberry.Engine.State.Counting.{
  has_majority, is_for_block, skip_to_prevote, advance_prevote, prevote_counted,
  handle_prevote_body, skip_to_precommit, advance_precommit, precommit_counted,
  handle_precommit_body,
}
use leaderberry.Engine.State.Committing.{
  find_commit, rounds_to, finalize_found, enter_commit_body, block_to_apply, begin_height, move_on,
  applied, finalize_block, finalize_commit_body,
}
use leaderberry.Engine.State.Machine.{body, run}
use leaderberry.Engine.State.Machine.Outcomes.{Ends, Settles-bind, if-both, Bool-both}
use leaderberry.Engine.State.Machine.Depth.{
  depth, Limited, write_log-Ends, enter_wait-Ends, enter_new_round-Ends, create_proposal-Ends,
  enter_prevote-Ends, enter_precommit-Ends, sign_and_send-Ends,
}

module _ {Block World : Type 0} (k : ℕ)
    (go : Call → State Block World → Outcome (State Block World)) (h : Limited k go) where
  skip_to_prevote-Ends :
      (vote : Vote) (s : State Block World) → 10 ≤ k → Ends (skip_to_prevote go vote s)
  unfolding skip_to_prevote
  skip_to_prevote-Ends vote s d =
      Settles-bind (λ a. Unit {0}) _ _ _ (h (enter_new_round s.height vote.round) s d)
        λ t v.
          Bool-both Ends (has_majority (prevotes_at s.votes.generation vote.round t)) _ _
            (λ q. h (enter_precommit t.height vote.round) t (omega arith))
            (λ q. h (enter_prevote t.height vote.round) t (omega arith))

  advance_prevote-Ends :
      (vs : VoteSet) (s : State Block World) → 5 ≤ k → Ends (advance_prevote go vs s)
  unfolding advance_prevote
  advance_prevote-Ends vs s d =
      Bool-both Ends (has_two_thirds_majority vs) _ _
        (λ q.
          Bool-both Ends (step_is s.step prevote || step_is s.step prevote_wait) _ _
            (λ q. h (enter_precommit s.height s.round) s d) (λ q. tt))
        (λ q.
          Bool-both Ends (has_two_thirds_any vs && step_is s.step prevote) _ _
            (λ q. h (enter_prevote_wait s.height s.round) s (omega arith)) (λ q. tt))

  handle_prevote-Ends :
      (vote : Vote) (s : State Block World)
      → depth (handle_prevote vote) s ≤ suc k
      → Ends (handle_prevote_body go vote s)
  unfolding handle_prevote_body prevote_counted
  handle_prevote-Ends vote s d = counted (prevotes_of s.votes vote.round)
    where
      counted : (o : Option VoteSet) → Ends (prevote_counted go vote o s)
      counted none = tt
      counted (some vs) =
          Bool-both Ends (ltb_ℤ s.round vote.round && has_two_thirds_any vs) _ _
            (λ q. skip_to_prevote-Ends vote s (ground (arith, eqb_ℤ_iff vote.round s.round)))
            (λ q.
              Bool-both Ends (eqb_ℤ vote.round s.round) _ _
                (λ p. advance_prevote-Ends vs s (ground (arith, p))) (λ p. tt))

  skip_to_precommit-Ends :
      (vote : Vote) (s : State Block World) → 10 ≤ k → Ends (skip_to_precommit go vote s)
  unfolding skip_to_precommit
  skip_to_precommit-Ends vote s d =
      Settles-bind (λ a. Unit {0}) _ _ _ (h (enter_new_round s.height vote.round) s d)
        λ t v.
          Settles-bind (λ a. Unit {0}) _ _ _ (h (enter_prevote t.height vote.round) t (omega arith))
            λ u x. h (enter_precommit u.height vote.round) u (omega arith)

  advance_precommit-Ends :
      (vote : Vote) (vs : VoteSet) (s : State Block World)
      → depth (handle_precommit vote) s ≤ suc k
      → Ends (advance_precommit go vote vs s)
  unfolding advance_precommit
  advance_precommit-Ends vote vs s d =
      Bool-both Ends (ltb_ℤ s.round vote.round && has_two_thirds_any vs) _ _
        (λ q. skip_to_precommit-Ends vote s (ground (arith, eqb_ℤ_iff vote.round s.round)))
        (λ q.
          Bool-both Ends
            (eqb_ℤ vote.round s.round && (has_two_thirds_any vs && step_is s.step precommit)) _ _
            (λ p. h (enter_precommit_wait s.height s.round) s (ground (arith, d))) (λ p. tt))

  handle_precommit-Ends :
      (vote : Vote) (s : State Block World)
      → depth (handle_precommit vote) s ≤ suc k
      → Ends (handle_precommit_body go vote s)
  unfolding handle_precommit_body precommit_counted
  handle_precommit-Ends vote s d = counted (precommits_of s.votes vote.round)
    where
      counted : (o : Option VoteSet) → Ends (precommit_counted go vote o s)
      counted none = tt
      counted (some vs) =
          Bool-both Ends (is_for_block (two_thirds_majority vs)) _ _
            (λ q. h (enter_commit s.height) _ (ground (arith, d)))
            (λ q. advance_precommit-Ends vote vs s d)

module _ {Block World : Type 0} (e : Env Block World) (waits : e.skip_timeout_commit ≡ false) where
  enter_commit-Ends :
      (k : ℕ) (go : Call → State Block World → Outcome (State Block World)) (height : ℤ)
      (s : State Block World)
      → Limited k go
      → 1 ≤ k
      → Ends (enter_commit_body e go height s)
  unfolding enter_commit_body finalize_found
  enter_commit-Ends k go height s h d =
      if-both Ends (not (eqb_ℤ s.height height) || not (step_below s.step commit)) _ _ (λ q. tt)
        (λ q. with_commit (find_commit (rounds_to s.round) s.votes) _)
    where
      with_commit :
          (o : Option Commit) (t : State Block World) → Ends (finalize_found e go height o t)
      with_commit none t = tt
      with_commit (some c) t = h (finalize_commit height c) t d

  -- Without SkipTimeoutCommit the next height waits for its timeout.
  begin_height-Ends :
      (go : Call → State Block World → Outcome (State Block World)) (s : State Block World)
      → Ends (begin_height e go s)
  unfolding begin_height
  begin_height-Ends go s =
      Bool-both Ends e.skip_timeout_commit _ _ (λ q. absurd (ground (arith, q, waits))) (λ q. tt)

  move_on-Ends :
      (go : Call → State Block World → Outcome (State Block World)) (height : ℤ) (c : Commit)
      (o : Option ValidatorSet) (s : State Block World)
      → Ends (move_on e go height c o s)
  unfolding move_on
  move_on-Ends go height c none s = tt
  move_on-Ends go height c (some vals) s =
      Settles-bind (λ a. Unit {0}) _ _ _ (write_log-Ends e _ s) (λ t v. begin_height-Ends go _)

  applied-Ends :
      (go : Call → State Block World → Outcome (State Block World)) (height : ℤ) (b : Block)
      (c : Commit) (s : State Block World) (r : World × Option (List ValidatorUpdate))
      → Ends (applied e go height b c s r)
  unfolding applied
  applied-Ends go height b c s (world, none) = tt
  applied-Ends go height b c s (world, some us) = move_on-Ends go height c _ _

  finalize_commit-Ends :
      (go : Call → State Block World → Outcome (State Block World)) (height : ℤ) (c : Commit)
      (s : State Block World)
      → Ends (finalize_commit_body e go height c s)
  unfolding finalize_commit_body finalize_block
  finalize_commit-Ends go height c s = with_block (block_to_apply s)
    where
      with_block : (o : Option Block) → Ends (finalize_block e go height c o s)
      with_block none = tt
      with_block (some b) =
          if-both Ends (not (hash_equal (block_hash e.signing b) c.block_hash)) _ _ (λ q. tt)
            λ q.
              if-both Ends e.has_executor _ _ (λ x. applied-Ends go height b c s _)
                (λ x. move_on-Ends go height c _ s)

  body-Ends :
      (k : ℕ) (go : Call → State Block World → Outcome (State Block World))
      → Limited k go
      → Limited (suc k) (body e go)
  unfolding body
  body-Ends k go h (enter_new_round height round) s d =
      enter_new_round-Ends e k go h height round s (omega arith)
  body-Ends k go h create_proposal s d = create_proposal-Ends e k go h s (omega arith)
  body-Ends k go h (enter_prevote height round) s d =
      enter_prevote-Ends e k go h height round s (omega arith)
  body-Ends k go h (enter_prevote_wait height round) s d =
      enter_wait-Ends e prevote_wait height round s
  body-Ends k go h (enter_precommit height round) s d =
      enter_precommit-Ends e k go h height round s (omega arith)
  body-Ends k go h (enter_precommit_wait height round) s d =
      enter_wait-Ends e precommit_wait height round s
  body-Ends k go h (enter_commit height) s d = enter_commit-Ends k go height s h (omega arith)
  body-Ends k go h (finalize_commit height c) s d = finalize_commit-Ends go height c s
  body-Ends k go h (sign_and_send vote_type hash) s d =
      sign_and_send-Ends e k go h vote_type hash s d
  body-Ends k go h (handle_prevote vote) s d = handle_prevote-Ends k go h vote s d
  body-Ends k go h (handle_precommit vote) s d = handle_precommit-Ends k go h vote s d

  depth_positive : (call : Call) (s : State Block World) → 1 ≤ depth call s
  depth_positive (finalize_commit height c) s = omega arith
  depth_positive (enter_prevote_wait height round) s = omega arith
  depth_positive (enter_precommit_wait height round) s = omega arith
  depth_positive (enter_commit height) s = omega arith
  depth_positive (handle_precommit vote) s = ground arith
  depth_positive (sign_and_send vote_type hash) s = ground arith
  depth_positive (enter_precommit height round) s = omega arith
  depth_positive (handle_prevote vote) s = ground arith
  depth_positive (enter_prevote height round) s = omega arith
  depth_positive create_proposal s = omega arith
  depth_positive (enter_new_round height round) s = omega arith

  run-Limited : (n : ℕ) → Limited n (run e n)
  unfolding run
  run-Limited zero call s d = absurd (omega (arith, depth_positive call s, d))
  run-Limited (suc n) call s d = body-Ends n (run e n) (run-Limited n) call s d

  depth_bounded : (call : Call) (s : State Block World) → depth call s ≤ 11
  depth_bounded (finalize_commit height c) s = omega arith
  depth_bounded (enter_prevote_wait height round) s = omega arith
  depth_bounded (enter_precommit_wait height round) s = omega arith
  depth_bounded (enter_commit height) s = omega arith
  depth_bounded (handle_precommit vote) s = ground arith
  depth_bounded (sign_and_send vote_type hash) s = ground arith
  depth_bounded (enter_precommit height round) s = omega arith
  depth_bounded (handle_prevote vote) s = ground arith
  depth_bounded (enter_prevote height round) s = omega arith
  depth_bounded create_proposal s = omega arith
  depth_bounded (enter_new_round height round) s = omega arith

  -- A depth of eleven is enough for every method.
  pub run-Ends : (n : ℕ) → 11 ≤ n → (call : Call) (s : State Block World) → Ends (run e n call s)
  run-Ends n enough call s = run-Limited n call s (omega (arith, depth_bounded call s, enough))
