-- ===== src/Engine/State/Machine/Handling.antt =====
-- Every event of engine/state.go is handled to its end, unless SkipTimeoutCommit is set.
use leaderberry.Prelude.{ℕ, ◌≤◌, ◌≡◌, ◌≢◌, subst, true, false, not, ◌||◌, Bool, pos, eqb_ℤ, ltb_ℤ}
use leaderberry.Types.Vote.{Vote, vote_type_prevote, vote_type_precommit}
use leaderberry.PrivVal.FilePv.{Proposal}
use leaderberry.Engine.VoteSet.{Result, ok, err}
use leaderberry.Engine.HeightVoteSet.{HeightVoteSet}
use leaderberry.Engine.State.{
  RoundStep, new_height, new_round, propose, prevote, prevote_wait, precommit, precommit_wait,
  commit, Env, State, enter_new_round, enter_prevote, enter_precommit, handle_prevote,
  handle_precommit, Outcome, out_of_fuel, step_is,
}
use leaderberry.Engine.State.Machine.{
  is_acceptable, accept, handle_proposal, vote_added, handle_vote, timed_out, handle_timeout, Event,
  takes_proposal, takes_vote, takes_timeout, handle,
}
use leaderberry.Engine.State.Machine.Outcomes.{Ends, Settles-bind, if-both, Bool-both}
use leaderberry.Engine.State.Machine.Depth.{write_log-Ends}
use leaderberry.Engine.State.Machine.Ending.{run-Ends}

module _ {Block World : Type 0} (e : Env Block World) (waits : e.skip_timeout_commit ≡ false)
    (n : ℕ) (enough : 11 ≤ n) where
  accept-Ends : (p : Proposal Block) (r : State Block World × Bool) → Ends (accept e n p r)
  unfolding accept
  accept-Ends p (s, false) = tt
  accept-Ends p (s, true) =
      Settles-bind (λ a. Unit {0}) _ _ _ (write_log-Ends e _ s)
        (λ t v. run-Ends e waits n enough (enter_prevote t.height t.round) _)

  vote_added-Ends :
      (vote : Vote) (s : State Block World) (r : HeightVoteSet × Result)
      → Ends (vote_added e n vote s r)
  unfolding vote_added
  vote_added-Ends vote s (votes, err x) = tt
  vote_added-Ends vote s (votes, ok false) = tt
  vote_added-Ends vote s (votes, ok true) =
      Bool-both Ends (eqb_ℤ vote.type' vote_type_prevote) _ _
        (λ q. run-Ends e waits n enough (handle_prevote vote) _)
        (λ q.
          Bool-both Ends (eqb_ℤ vote.type' vote_type_precommit) _ _
            (λ q. run-Ends e waits n enough (handle_precommit vote) _) (λ q. tt))

  timed_out-Ends : (step : RoundStep) (s : State Block World) → Ends (timed_out e n step s)
  unfolding timed_out
  timed_out-Ends propose s =
      if-both Ends (step_is s.step propose) _ _
        (λ q. run-Ends e waits n enough (enter_prevote s.height s.round) s) (λ q. tt)
  timed_out-Ends prevote_wait s =
      if-both Ends (step_is s.step prevote_wait) _ _
        (λ q. run-Ends e waits n enough (enter_precommit s.height s.round) s) (λ q. tt)
  timed_out-Ends precommit_wait s =
      if-both Ends (step_is s.step precommit_wait) _ _
        (λ q. run-Ends e waits n enough (enter_new_round s.height _) s) (λ q. tt)
  timed_out-Ends commit s = run-Ends e waits n enough (enter_new_round s.height (pos 0)) s
  timed_out-Ends new_height s = tt
  timed_out-Ends new_round s = tt
  timed_out-Ends prevote s = tt
  timed_out-Ends precommit s = tt

  handle-Ends : (event : Event Block) (s : State Block World) → Ends (handle e n event s)
  unfolding handle handle_proposal handle_vote handle_timeout
  handle-Ends (takes_proposal p) s =
      if-both Ends (is_acceptable e p s) _ _ (λ q. accept-Ends p _) (λ q. tt)
  handle-Ends (takes_vote vote) s =
      Settles-bind (λ a. Unit {0}) _ _ _ (write_log-Ends e _ _) (λ t v. vote_added-Ends vote _ _)
  handle-Ends (takes_timeout ti) s =
      if-both Ends (not (eqb_ℤ ti.height s.height) || ltb_ℤ ti.round s.round) _ _ (λ q. tt)
        (λ q. timed_out-Ends ti.step s)

  not_out_of_fuel : (o : Outcome (State Block World)) → Ends o → o ≢ out_of_fuel
  not_out_of_fuel o h q = subst Ends q h

  -- Unless the configuration skips the commit timeout, a proposal, a vote or a timeout is handled, in any
  -- state, to a return or a panic, with calls that are at most eleven deep.
  pub handle_ends : (event : Event Block) (s : State Block World) → handle e n event s ≢ out_of_fuel
  handle_ends event s = not_out_of_fuel (handle e n event s) (handle-Ends event s)
