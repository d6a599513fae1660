-- ===== src/Engine/State/Machine/Depth.antt =====
-- How deep the calls of the methods of engine/state.go go, unless the next height begins in the same call.
use leaderberry.Prelude.{
  ℕ, suc, ◌≤◌, ◌≡◌, refl, true, false, not, ◌||◌, Bool, Option, none, some, ℤ, eqb_ℤ, eqb_ℤ_iff,
  ltb_ℤ, arith, if◌then◌else◌,
}
use leaderberry.Types.Hash.{Hash, hash_equal, is_hash_empty}
use leaderberry.Types.Vote.{Vote, vote_type_prevote, vote_type_precommit}
use leaderberry.Types.Validator.{NamedValidator, get_by_index}
use leaderberry.Types.Validator.Rotation.{get_proposer_for_round}
use leaderberry.PrivVal.FilePv.{Proposal, Answer, block_hash, signed, refused}
use leaderberry.PrivVal.FilePv
use leaderberry.Engine.VoteSet.{VoteSet, Result, ok, err, two_thirds_majority}
use leaderberry.Engine.HeightVoteSet.{HeightVoteSet, prevotes_of}
use leaderberry.Engine.State.{
  LogEntry, RoundStep, prevote, precommit, Env, State, Call, enter_new_round, enter_prevote,
  enter_prevote_wait, enter_precommit, enter_precommit_wait, create_proposal, enter_commit,
  finalize_commit, sign_and_send, handle_prevote, handle_precommit, Outcome,
}
use leaderberry.Engine.State.Proposing.{
  written, write_log, is_proposer, enter_new_round_body, send_proposal, proposal_signed,
  sign_and_propose, propose_block, create_proposal_body,
}
use leaderberry.Engine.State.Voting.{
  may_enter, enter_prevote_body, enter_wait_body, lock_or_nil, decide_precommit, precommit_on,
  enter_precommit_body, find_validator, after_own_vote, own_added, add_own_vote, own_vote,
  vote_signed, sign_as, sign_and_send_body,
}
use leaderberry.Engine.State.Machine.Outcomes.{
  Ends, Settles, Settles-weaken, Settles-bind, if-both, Bool-both, Option-both,
}

module _ {Block World : Type 0} where
  -- A vote of the round that the node is in leads to no other round.
  abbrev pub depth : Call → State Block World → ℕ
  depth (finalize_commit height c) s = 1
  depth (enter_prevote_wait height round) s = 1
  depth (enter_precommit_wait height round) s = 1
  depth (enter_commit height) s = 2
  depth (handle_precommit vote) s = if eqb_ℤ vote.round s.round then 3 else 11
  depth (sign_and_send vote_type hash) s = if eqb_ℤ vote_type vote_type_prevote then 7 else 4
  depth (enter_precommit height round) s = 5
  depth (handle_prevote vote) s = if eqb_ℤ vote.round s.round then 6 else 11
  depth (enter_prevote height round) s = 8
  depth create_proposal s = 9
  depth (enter_new_round height round) s = 10

  abbrev pub Limited : ℕ → (Call → State Block World → Outcome (State Block World)) → Type 0
  Limited k go = (call : Call) (s : State Block World) → depth call s ≤ k → Ends (go call s)

module _ {Block World : Type 0} (e : Env Block World) where
  abbrev SameRound : State Block World → State Block World → Type 0
  SameRound s t = t.round ≡ s.round

  written-SameRound :
      (entry : LogEntry Block) (s : State Block World) (r : World × Bool)
      → Settles (SameRound s) (written e entry s r)
  unfolding written
  written-SameRound entry s (world, true) = refl
  written-SameRound entry s (world, false) = tt

  write_log-SameRound :
      (entry : LogEntry Block) (s : State Block World) → Settles (SameRound s) (write_log e entry s)
  unfolding write_log
  write_log-SameRound entry s =
      if-both (Settles (SameRound s)) (not e.has_wal) _ _ (λ q. refl)
        (λ q. written-SameRound entry s (e.write s.world entry))

  pub write_log-Ends : (entry : LogEntry Block) (s : State Block World) → Ends (write_log e entry s)
  write_log-Ends entry s = Settles-weaken (SameRound s) _ (write_log-SameRound entry s)

  pub enter_wait-Ends :
      (step : RoundStep) (height round : ℤ) (s : State Block World)
      → Ends (enter_wait_body e step height round s)
  unfolding enter_wait_body
  enter_wait-Ends step height round s =
      if-both Ends (not (may_enter e height round step s)) _ _ (λ q. tt) (λ q. tt)

  module _ (k : ℕ) (go : Call → State Block World → Outcome (State Block World))
      (h : Limited k go) where
    pub enter_new_round-Ends :
        (height round : ℤ) (s : State Block World)
        → 9 ≤ k
        → Ends (enter_new_round_body e go height round s)
    unfolding enter_new_round_body
    enter_new_round-Ends height round s d =
        if-both Ends (not (eqb_ℤ s.height height) || ltb_ℤ round s.round) _ _ (λ q. tt)
          λ q.
            Bool-both Ends (is_proposer e (get_proposer_for_round s.validator_set round)) _ _
              (λ p. h create_proposal _ d) (λ p. tt)

    send_proposal-Ends :
        (p : Proposal Block) (s : State Block World) → 8 ≤ k → Ends (send_proposal e go p s)
    unfolding send_proposal
    send_proposal-Ends p s d =
        Settles-bind (λ a. Unit {0}) _ _ _ (write_log-Ends _ s)
          (λ t v. h (enter_prevote t.height t.round) _ d)

    proposal_signed-Ends :
        (p : Proposal Block) (s : State Block World) (r : World × Answer)
        → 8 ≤ k
        → Ends (proposal_signed e go p s r)
    unfolding proposal_signed
    proposal_signed-Ends p s (world, signed sig) d = send_proposal-Ends _ _ d
    proposal_signed-Ends p s (world, refused x) d = tt
    proposal_signed-Ends p s (world, FilePv.panicked) d = tt

    propose_block-Ends :
        (p : NamedValidator) (r : State Block World × Option Block)
        → 8 ≤ k
        → Ends (propose_block e go p r)
    unfolding propose_block sign_and_propose
    propose_block-Ends p (s, none) d = tt
    propose_block-Ends p (s, some b) d = proposal_signed-Ends _ _ _ d

    pub create_proposal-Ends : (s : State Block World) → 8 ≤ k → Ends (create_proposal_body e go s)
    unfolding create_proposal_body
    create_proposal-Ends s d =
        Option-both Ends (get_proposer_for_round s.validator_set s.round) _ _ (λ q. tt)
          (λ p q. propose_block-Ends p _ d)

    pub enter_prevote-Ends :
        (height round : ℤ) (s : State Block World)
        → 7 ≤ k
        → Ends (enter_prevote_body e go height round s)
    unfolding enter_prevote_body
    enter_prevote-Ends height round s d =
        if-both Ends (not (may_enter e height round prevote s)) _ _ (λ q. tt)
          (λ q. h (sign_and_send vote_type_prevote _) _ d)

    pub enter_precommit-Ends :
        (height round : ℤ) (s : State Block World)
        → 4 ≤ k
        → Ends (enter_precommit_body e go height round s)
    unfolding enter_precommit_body precommit_on decide_precommit lock_or_nil
    enter_precommit-Ends height round s d =
        if-both Ends (not (may_enter e height round precommit s)) _ _ (λ q. tt)
          (λ q. on (prevotes_of s.votes round) _)
      where
        sends :
            (hash : Option Hash) (t : State Block World)
            → Ends (go (sign_and_send vote_type_precommit hash) t)
        sends hash t = h (sign_and_send vote_type_precommit hash) t d

        locks :
            (hash : Hash) (o : Option Block) (t : State Block World)
            → Ends (lock_or_nil e go round hash o t)
        locks hash none t = sends none t
        locks hash (some b) t =
            if-both Ends (hash_equal (block_hash e.signing b) hash) _ _
              (λ q.
                Settles-bind (λ a. Unit {0}) _ _ _ (write_log-Ends _ _)
                  (λ u v. sends (some hash) u))
              (λ q. sends none t)

        decides :
            (r : Option Hash × Bool) (t : State Block World)
            → Ends (decide_precommit e go round r t)
        decides (hash, false) t = sends none t
        decides (none, true) t = sends none _
        decides (some hash, true) t =
            if-both Ends (is_hash_empty (some hash)) _ _ (λ q. sends none _)
              (λ q. locks hash t.proposal_block t)

        on : (o : Option VoteSet) (t : State Block World) → Ends (precommit_on e go round o t)
        on none t = sends none t
        on (some vs) t = decides (two_thirds_majority vs) t

    -- An own vote is of the round in which it is signed.
    abbrev IsOwn : ℤ → Vote → State Block World → Type 0
    IsOwn vote_type vote s =
        (vote.round ≡ s.round)
        × (vote.type' ≡ vote_type)
        × (depth (sign_and_send vote_type vote.block_hash) s ≤ suc k)

    after_own_vote-Ends :
        (vote_type : ℤ) (vote : Vote) (s : State Block World)
        → IsOwn vote_type vote s
        → Ends (after_own_vote e go vote s)
    unfolding after_own_vote
    after_own_vote-Ends vote_type vote s (same, is, d) =
        Settles-bind (λ a. Unit {0}) _ _ _
          (Bool-both Ends (eqb_ℤ vote.type' vote_type_prevote) _ _
            (λ q. h (handle_prevote vote) s (ground (arith, eqb_ℤ_iff vote.round s.round)))
            (λ q.
              Bool-both Ends (eqb_ℤ vote.type' vote_type_precommit) _ _
                (λ p. h (handle_precommit vote) s (ground (arith, eqb_ℤ_iff vote.round s.round)))
                (λ p. tt)))
          (λ t v. tt)

    own_added-Ends :
        (vote_type : ℤ) (vote : Vote) (s : State Block World) (r : HeightVoteSet × Result)
        → IsOwn vote_type vote s
        → Ends (own_added e go vote s r)
    unfolding own_added
    own_added-Ends vote_type vote s (votes, ok true) o = after_own_vote-Ends vote_type vote _ o
    own_added-Ends vote_type vote s (votes, ok false) o = tt
    own_added-Ends vote_type vote s (votes, err x) o = tt

    vote_signed-Ends :
        (vote_type : ℤ) (vote : Vote) (s : State Block World) (r : World × Answer)
        → IsOwn vote_type vote s
        → Ends (vote_signed e go vote s r)
    unfolding vote_signed add_own_vote
    vote_signed-Ends vote_type vote s (world, signed sig) (same, is, d) =
        Settles-bind (SameRound s) _ _ _ (write_log-SameRound _ (record s { world = world })) λ t v.
          own_added-Ends vote_type (record vote { signature = sig }) _ _
            (ground (arith, same, v), is, d)
    vote_signed-Ends vote_type vote s (world, refused x) o = tt
    vote_signed-Ends vote_type vote s (world, FilePv.panicked) o = tt

    pub sign_and_send-Ends :
        (vote_type : ℤ) (hash : Option Hash) (s : State Block World)
        → depth (sign_and_send vote_type hash) s ≤ suc k
        → Ends (sign_and_send_body e go vote_type hash s)
    unfolding sign_and_send_body sign_as own_vote
    sign_and_send-Ends vote_type hash s d =
        if-both Ends (not e.has_signer) _ _ (λ q. tt)
          λ q.
            Option-both Ends (find_validator e s.validator_set.validators) _ _ (λ q. tt)
              λ i q.
                Option-both Ends (get_by_index s.validator_set i) _ _ (λ q. tt)
                  λ val q. vote_signed-Ends vote_type _ _ _ (refl, refl, d)
