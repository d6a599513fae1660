-- ===== src/Engine/State/Machine/Reaching.antt =====
-- The invariant of ConsensusState holds of every state that the events of receiveRoutine lead to.
use leaderberry.Prelude.{
  ℕ, zero, suc, refl, not, true, false, ◌||◌, Bool, Option, some, List, [], ◌∷◌, ℤ, pos, eqb_ℤ,
  ltb_ℤ,
}
use leaderberry.Types.Vote.{Vote, Commit, vote_type_prevote, vote_type_precommit}
use leaderberry.Types.Validator.{ValidatorSet}
use leaderberry.Types.Validator.Member.{WellFormed}
use leaderberry.PrivVal.FilePv.{Proposal}
use leaderberry.Evidence.Pool.{Pool}
use leaderberry.Engine.VoteSet.{Result, ok, err}
use leaderberry.Engine.HeightVoteSet.{HeightVoteSet, new_height_vote_set}
use leaderberry.Engine.HeightVoteSet.Rounds.{new_height_vote_set-IsSound}
use leaderberry.Engine.State.{
  RoundStep, new_height, new_round, propose, prevote, prevote_wait, precommit, precommit_wait,
  commit, Env, State, Call, finalize_commit, enter_new_round, enter_prevote, enter_prevote_wait,
  enter_precommit, enter_precommit_wait, create_proposal, enter_commit, sign_and_send,
  handle_prevote, handle_precommit, Outcome, initial_state, step_is,
}
use leaderberry.Engine.State.Machine.{
  body, run, is_acceptable, validate, accept, handle_proposal, check_evidence, vote_added,
  handle_vote, timed_out, handle_timeout, start, round_after, Event, takes_proposal, takes_vote,
  takes_timeout, handle, receive, started,
}
use leaderberry.Engine.State.Machine.Outcomes.{Every, Every-bind, if-both, Bool-both, Option-both}
use leaderberry.Engine.State.Machine.Invariant.{HasTypedUpdates, Inv, Holds-add_vote, Holds-propose}
use leaderberry.Engine.State.Machine.Proposals.{
  Keeps, write_log-Inv, enter_new_round-Inv, create_proposal-Inv,
}
use leaderberry.Engine.State.Machine.OwnVotes.{
  enter_wait-Inv, enter_prevote-Inv, enter_precommit-Inv, sign_and_send-Inv,
}
use leaderberry.Engine.State.Machine.Commits.{
  handle_prevote-Inv, handle_precommit-Inv, enter_commit-Inv, finalize_commit-Inv,
}

module _ {Block World : Type 0} (e : Env Block World) (typed : HasTypedUpdates e) where
  body-Keeps :
      (go : Call → State Block World → Outcome (State Block World))
      → Keeps e go
      → Keeps e (body e go)
  unfolding body
  body-Keeps go h (enter_new_round height round) s w r = enter_new_round-Inv e go h height round s w
  body-Keeps go h create_proposal s w r = create_proposal-Inv e go h s w
  body-Keeps go h (enter_prevote height round) s w r = enter_prevote-Inv e go h height round s w
  body-Keeps go h (enter_prevote_wait height round) s w r =
      enter_wait-Inv e prevote_wait height round s w
  body-Keeps go h (enter_precommit height round) s w r = enter_precommit-Inv e go h height round s w
  body-Keeps go h (enter_precommit_wait height round) s w r =
      enter_wait-Inv e precommit_wait height round s w
  body-Keeps go h (enter_commit height) s w r = enter_commit-Inv e typed go h height s w
  body-Keeps go h (finalize_commit height c) s w r = finalize_commit-Inv e typed go h height c s w r
  body-Keeps go h (sign_and_send vote_type hash) s w r = sign_and_send-Inv e go h vote_type hash s w
  body-Keeps go h (handle_prevote vote) s w r = handle_prevote-Inv e typed go h vote s w
  body-Keeps go h (handle_precommit vote) s w r = handle_precommit-Inv e typed go h vote s w

  pub run-Keeps : (n : ℕ) → Keeps e (run e n)
  unfolding run
  run-Keeps zero call s w r = tt
  run-Keeps (suc n) call s w r = body-Keeps (run e n) (run-Keeps n) call s w r

  accept-Inv :
      (n : ℕ) (p : Proposal Block) (r : State Block World × Bool)
      → Inv e r.0
      → Every (Inv e) (accept e n p r)
  unfolding accept
  accept-Inv n p (s, false) w = w
  accept-Inv n p (s, true) w = Every-bind (Inv e) (Inv e) _ _ (write_log-Inv e _ s w) λ t v.
      run-Keeps n (enter_prevote t.height t.round) _
        (Holds-propose e v (some p) (some p.block) refl) tt

  handle_proposal-Inv :
      (n : ℕ) (p : Proposal Block) (s : State Block World)
      → Inv e s
      → Every (Inv e) (handle_proposal e n p s)
  unfolding handle_proposal validate
  handle_proposal-Inv n p s w =
      if-both (Every (Inv e)) (is_acceptable e p s) _ _
        (λ q. accept-Inv n p _ (
          if-both (λ (r : State Block World × Bool). Inv e r.0) (not e.has_executor) _ _ (λ q. w)
            (λ q. w)))
        (λ q. w)

  check_evidence-Inv :
      (vote : Vote) (s : State Block World) → Inv e s → Inv e (check_evidence e vote s)
  unfolding check_evidence
  check_evidence-Inv vote s w = Option-both (Inv e) s.evidence_pool _ _ (λ q. w) (λ pool q. w)

  vote_added-Inv :
      (n : ℕ) (vote : Vote) (s : State Block World) (r : HeightVoteSet × Result)
      → Inv e (record s { votes = r.0 })
      → Every (Inv e) (vote_added e n vote s r)
  unfolding vote_added
  vote_added-Inv n vote s (votes, err x) w = w
  vote_added-Inv n vote s (votes, ok false) w = w
  vote_added-Inv n vote s (votes, ok true) w =
      Bool-both (Every (Inv e)) (eqb_ℤ vote.type' vote_type_prevote) _ _
        (λ q. run-Keeps n (handle_prevote vote) _ w tt)
        (λ q.
          Bool-both (Every (Inv e)) (eqb_ℤ vote.type' vote_type_precommit) _ _
            (λ q. run-Keeps n (handle_precommit vote) _ w tt) (λ q. w))

  handle_vote-Inv :
      (n : ℕ) (vote : Vote) (s : State Block World)
      → Inv e s
      → Every (Inv e) (handle_vote e n vote s)
  unfolding handle_vote
  handle_vote-Inv n vote s w =
      Every-bind (Inv e) (Inv e) _ _ (write_log-Inv e _ _ (check_evidence-Inv vote s w))
        λ t v. vote_added-Inv n vote _ _ (Holds-add_vote e v _ vote)

  timed_out-Inv :
      (n : ℕ) (step : RoundStep) (s : State Block World)
      → Inv e s
      → Every (Inv e) (timed_out e n step s)
  unfolding timed_out
  timed_out-Inv n propose s w =
      if-both (Every (Inv e)) (step_is s.step propose) _ _
        (λ q. run-Keeps n (enter_prevote s.height s.round) s w tt) (λ q. w)
  timed_out-Inv n prevote_wait s w =
      if-both (Every (Inv e)) (step_is s.step prevote_wait) _ _
        (λ q. run-Keeps n (enter_precommit s.height s.round) s w tt) (λ q. w)
  timed_out-Inv n precommit_wait s w =
      if-both (Every (Inv e)) (step_is s.step precommit_wait) _ _
        (λ q. run-Keeps n (enter_new_round s.height (round_after s.round)) s w tt) (λ q. w)
  timed_out-Inv n commit s w = run-Keeps n (enter_new_round s.height (pos 0)) s w tt
  timed_out-Inv n new_height s w = w
  timed_out-Inv n new_round s w = w
  timed_out-Inv n prevote s w = w
  timed_out-Inv n precommit s w = w

  pub handle-Inv :
      (n : ℕ) (event : Event Block) (s : State Block World)
      → Inv e s
      → Every (Inv e) (handle e n event s)
  unfolding handle handle_timeout
  handle-Inv n (takes_proposal p) s w = handle_proposal-Inv n p s w
  handle-Inv n (takes_vote vote) s w = handle_vote-Inv n vote s w
  handle-Inv n (takes_timeout ti) s w =
      if-both (Every (Inv e)) (not (eqb_ℤ ti.height s.height) || ltb_ℤ ti.round s.round) _ _
        (λ q. w) (λ q. timed_out-Inv n ti.step s w)

  receive-Inv :
      (n : ℕ) (events : List (Event Block)) (s : State Block World)
      → Inv e s
      → Every (Inv e) (receive e n events s)
  unfolding receive
  receive-Inv n [] s w = w
  receive-Inv n (event ∷ events) s w =
      Every-bind (Inv e) (Inv e) _ _ (handle-Inv n event s w) (receive-Inv n events)

  initial_state-Inv :
      (world : World) (vals : ValidatorSet) (height : ℤ) (last : Option Commit) (pool : Option Pool)
      → WellFormed vals
      → Inv e (initial_state e world vals height last pool)
  initial_state-Inv world vals height last pool w = record {
    sound = new_height_vote_set-IsSound e.signing.crypto e.chain_id height vals w;
    same_chain = unfold new_height_vote_set in refl;
    same_height = unfold new_height_vote_set in refl;
    same_set = unfold new_height_vote_set in refl;
    justified = λ b q. cc;
    proposed = tt;
    certified = tt;
  }

  -- From a well-formed validator set, with an executor whose powers are int64 values: after Start and
  -- whatever proposals, votes and timeouts, a node that has not panicked counts the votes of its own
  -- height and validators right, has a majority of prevotes for a block that it is locked on, in the round
  -- of the lock, and has applied only blocks with a commit that VerifyCommit accepts for the block, and for
  -- the height and the validators that the node had then.
  pub started-Inv :
      (n : ℕ) (events : List (Event Block)) (world : World) (vals : ValidatorSet) (height : ℤ)
      (last : Option Commit) (pool : Option Pool)
      → WellFormed vals
      → Every (Inv e) (started e n events (initial_state e world vals height last pool))
  unfolding started start
  started-Inv n events world vals height last pool w =
      Every-bind (Inv e) (Inv e) _ _
        (run-Keeps n (enter_new_round height (pos 0)) _
          (initial_state-Inv world vals height last pool w) tt)
        (receive-Inv n events)
