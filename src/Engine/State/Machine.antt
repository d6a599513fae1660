-- ===== src/Engine/State/Machine.antt =====
-- The run of the methods of engine/state.go, and the handlers of its events: handleProposal, handleVote,
-- handleTimeout, receiveRoutine and Start. `run` allows calls of a depth given: a method that calls another takes one off.
pub mod Outcomes
pub mod Invariant
pub mod Proposals
pub mod OwnVotes
pub mod Commits
pub mod Reaching
pub mod Depth
pub mod Ending
pub mod Handling
pub mod Crashing
pub mod Agreement
use leaderberry.Prelude.{
  ℕ, zero, suc, Bool, true, false, not, ◌&&◌, ◌||◌, Option, none, some, List, [], ◌∷◌, ℤ, pos,
  negsuc, ◌+ℤ◌, ltb_ℤ, leb_ℤ, eqb_ℤ, if◌then◌else◌,
}
use leaderberry.Types.Account.{account_name_equal}
use leaderberry.Types.Vote.{Vote, Commit, verify_signature, vote_type_prevote, vote_type_precommit}
use leaderberry.Types.Validator.{NamedValidator}
use leaderberry.Types.Validator.Rotation.{get_proposer_for_round}
use leaderberry.PrivVal.FilePv.{Proposal, proposal_sign_bytes}
use leaderberry.Evidence.Pool.{Pool, Outside}
use leaderberry.Evidence.CheckVote.{
  CheckResult, found, nothing, failed, check_vote, add_duplicate_vote_evidence,
}
use leaderberry.Engine.VoteSet.{Result, ok, err}
use leaderberry.Engine.HeightVoteSet.{HeightVoteSet, add_vote}
use leaderberry.Engine.State.{
  RoundStep, new_height, new_round, propose, prevote, prevote_wait, precommit, precommit_wait,
  commit, TimeoutInfo, LogEntry, log_proposal, log_vote, Env, State, Call, enter_new_round,
  enter_prevote, enter_prevote_wait, enter_precommit, enter_precommit_wait, create_proposal,
  enter_commit, finalize_commit, sign_and_send, handle_prevote, handle_precommit, Outcome, done,
  panicked, out_of_fuel, ◌>>=◌, step_is,
}
use leaderberry.Engine.State.Proposing.{
  enter_new_round_body, create_proposal_body, validate_pol, write_log,
}
use leaderberry.Engine.State.Voting.{
  enter_prevote_body, enter_wait_body, enter_precommit_body, sign_and_send_body,
}
use leaderberry.Engine.State.Counting.{handle_prevote_body, handle_precommit_body}
use leaderberry.Engine.State.Committing.{enter_commit_body, finalize_commit_body}

-- cs.round + 1 on int32, and the cap.
unfoldable pub round_after : ℤ → ℤ
round_after round =
    let next = if eqb_ℤ round (pos 2147483647) then negsuc 2147483647 else round +ℤ pos 1 in
    if ltb_ℤ next (pos 0) then pos 2147483647 else next

-- What receiveRoutine selects from its channels.
pub data Event (Block : Type 0) : Type 0 where
  takes_proposal : Proposal Block → Event Block
  takes_vote : Vote → Event Block
  takes_timeout : TimeoutInfo → Event Block

module _ {Block World : Type 0} (e : Env Block World) where
  -- One method, whose calls are `go`.
  unfoldable pub body :
      (Call → State Block World → Outcome (State Block World))
      → Call
      → State Block World
      → Outcome (State Block World)
  body go (enter_new_round height round) s = enter_new_round_body e go height round s
  body go create_proposal s = create_proposal_body e go s
  body go (enter_prevote height round) s = enter_prevote_body e go height round s
  body go (enter_prevote_wait height round) s = enter_wait_body e prevote_wait height round s
  body go (enter_precommit height round) s = enter_precommit_body e go height round s
  body go (enter_precommit_wait height round) s = enter_wait_body e precommit_wait height round s
  body go (enter_commit height) s = enter_commit_body e go height s
  body go (finalize_commit height c) s = finalize_commit_body e go height c s
  body go (sign_and_send vote_type hash) s = sign_and_send_body e go vote_type hash s
  body go (handle_prevote vote) s = handle_prevote_body go vote s
  body go (handle_precommit vote) s = handle_precommit_body go vote s

  unfoldable pub run : ℕ → Call → State Block World → Outcome (State Block World)
  run zero call s = out_of_fuel
  run (suc n) call s = body (run n) call s

  abbrev is_from : Option NamedValidator → Proposal Block → Bool
  is_from none p = false
  is_from (some v) p =
      account_name_equal p.proposer v.name
      && verify_signature e.signing.crypto v.public_key (proposal_sign_bytes e.signing e.chain_id p)
          p.signature

  -- The checks of handleProposal before the block is validated.
  unfoldable pub is_acceptable : Proposal Block → State Block World → Bool
  is_acceptable p s =
      eqb_ℤ p.height s.height
      && (eqb_ℤ p.round s.round
          && ((elim s.proposal [ none ↦ true | some q ↦ false ])
              && (is_from (get_proposer_for_round s.validator_set p.round) p
                  && (ltb_ℤ p.pol_round (pos 0) || validate_pol e s.validator_set p))))

  unfoldable pub validate : Proposal Block → State Block World → State Block World × Bool
  validate p s =
      if not e.has_executor
      then (s, true)
      else let (world, valid) = e.validate_block s.world p.block in
        (record s { world = world }, valid)

  unfoldable pub accept :
      ℕ → Proposal Block → State Block World × Bool → Outcome (State Block World)
  accept n p (s, false) = done s
  accept n p (s, true) = write_log e (log_proposal p) s >>= λ s.
      run n (enter_prevote s.height s.round)
        (record s { proposal = some p; proposal_block = some p.block })

  unfoldable pub handle_proposal :
      ℕ → Proposal Block → State Block World → Outcome (State Block World)
  handle_proposal n p s = if is_acceptable p s then accept n p (validate p s) else done s

  -- The evidence pool has the state machine's signatures.
  abbrev pub pool_outside : Outside
  pool_outside = record e.outside { crypto = e.signing.crypto }

  abbrev add_found : ℤ → State Block World → Pool × CheckResult → Pool
  add_found now s (pool, found dve) =
      (add_duplicate_vote_evidence pool_outside pool (some dve) e.chain_id (some s.validator_set)).0
  add_found now s (pool, nothing) = pool
  add_found now s (pool, failed x) = pool

  -- The check for equivocation.
  unfoldable pub check_evidence : Vote → State Block World → State Block World
  check_evidence vote s = elim s.evidence_pool [
    | none ↦ s
    | some pool ↦
        let (now, world) = e.now s.world in
        record s {
          world = world;
          evidence_pool = some (
              add_found now s
                (check_vote pool_outside pool now (some vote) (some s.validator_set) e.chain_id));
        }
  ]

  unfoldable pub vote_added :
      ℕ → Vote → State Block World → HeightVoteSet × Result → Outcome (State Block World)
  vote_added n vote s (votes, err x) = done (record s { votes = votes })
  vote_added n vote s (votes, ok false) = done (record s { votes = votes })
  vote_added n vote s (votes, ok true) = elim (eqb_ℤ vote.type' vote_type_prevote) [
    | true ↦ run n (handle_prevote vote) (record s { votes = votes })
    | false ↦ elim (eqb_ℤ vote.type' vote_type_precommit) [
      | true ↦ run n (handle_precommit vote) (record s { votes = votes })
      | false ↦ done (record s { votes = votes })
    ]
  ]

  unfoldable pub handle_vote : ℕ → Vote → State Block World → Outcome (State Block World)
  handle_vote n vote s = write_log e (log_vote vote) (check_evidence vote s) >>= λ s.
      let (now, world) = e.now s.world in
      vote_added n vote (record s { world = world }) (add_vote e.signing.crypto s.votes now vote)

  -- The switch on the step of a timeout that is not old.
  unfoldable pub timed_out : ℕ → RoundStep → State Block World → Outcome (State Block World)
  timed_out n propose s =
      if step_is s.step propose then run n (enter_prevote s.height s.round) s else done s
  timed_out n prevote_wait s =
      if step_is s.step prevote_wait then run n (enter_precommit s.height s.round) s else done s
  timed_out n precommit_wait s =
      if step_is s.step precommit_wait
      then run n (enter_new_round s.height (round_after s.round)) s
      else done s
  timed_out n commit s = run n (enter_new_round s.height (pos 0)) s
  timed_out n new_height s = done s
  timed_out n new_round s = done s
  timed_out n prevote s = done s
  timed_out n precommit s = done s

  unfoldable pub handle_timeout : ℕ → TimeoutInfo → State Block World → Outcome (State Block World)
  handle_timeout n ti s =
      if not (eqb_ℤ ti.height s.height) || ltb_ℤ ti.round s.round
      then done s
      else timed_out n ti.step s

  -- Start, from the state that NewConsensusState and its assignments make.
  unfoldable pub start : ℕ → State Block World → Outcome (State Block World)
  start n s = run n (enter_new_round s.height (pos 0)) s

  unfoldable pub handle : ℕ → Event Block → State Block World → Outcome (State Block World)
  handle n (takes_proposal p) s = handle_proposal n p s
  handle n (takes_vote vote) s = handle_vote n vote s
  handle n (takes_timeout ti) s = handle_timeout n ti s

  -- The loop of receiveRoutine, for the events in the order in which it selects them.
  unfoldable pub receive : ℕ → List (Event Block) → State Block World → Outcome (State Block World)
  receive n [] s = done s
  receive n (event ∷ events) s = handle n event s >>= λ s. receive n events s

  -- Start, and the loop that it starts.
  unfoldable pub started : ℕ → List (Event Block) → State Block World → Outcome (State Block World)
  started n events s = start n s >>= λ s. receive n events s
