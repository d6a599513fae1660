-- ===== src/Engine/State/Voting.antt =====
-- Own votes in engine/state.go: enterPrevoteLocked, enterPrecommitLocked, the waits, and
-- signAndSendVoteLocked.
pub mod Locks
use leaderberry.Prelude.{
  ℕ, Bool, true, false, not, ◌&&◌, ◌||◌, Option, none, some, List, [], ◌∷◌, ℤ, pos, negsuc, ltb_ℤ,
  leb_ℤ, eqb_ℤ, if◌then◌else◌, Bytes,
}
use leaderberry.Types.Hash.{Hash, is_hash_empty, hash_equal}
use leaderberry.Types.Vote.{Vote, vote_type_prevote, vote_type_precommit}
use leaderberry.Types.Validator.{ValidatorSet, NamedValidator, get_by_index}
use leaderberry.PrivVal.FilePv.{Proposal, Answer, block_hash, signed, refused}
use leaderberry.PrivVal.FilePv
use leaderberry.Engine.VoteSet.{VoteSet, Result, ok, err}
use leaderberry.Engine.VoteSet
use leaderberry.Engine.HeightVoteSet
use leaderberry.Engine.HeightVoteSet.{HeightVoteSet, prevotes_of}
use leaderberry.Engine.State.{
  RoundStep, prevote, prevote_wait, precommit, precommit_wait, TimeoutInfo, StateData, log_vote,
  log_state, schedules, sends_vote, Env, State, Call, sign_and_send, handle_prevote,
  handle_precommit, Outcome, done, panicked, ◌>>=◌, act, step_below,
}
use leaderberry.Engine.State.Proposing.{public_key_equal, write_log, validate_pol}

module _ {Block World : Type 0} (e : Env Block World) where
  -- The guard with which the steps begin.
  unfoldable pub may_enter : ℤ → ℤ → RoundStep → State Block World → Bool
  may_enter height round step s =
      eqb_ℤ s.height height && (eqb_ℤ s.round round && step_below s.step step)

  unfoldable pub can_unlock : State Block World → Option (Proposal Block) → Bool
  can_unlock s none = false
  can_unlock s (some p) =
      leb_ℤ (pos 0) p.pol_round
      && (ltb_ℤ s.locked_round p.pol_round
          && (ltb_ℤ p.pol_round p.round && validate_pol e s.validator_set p))

  abbrev pub unlock : State Block World → State Block World
  unlock s = record s { locked_round = negsuc 0; locked_block = none }

  -- What to prevote for, and the state with the lock cleared by a POL.
  unfoldable pub decide_prevote :
      State Block World → Option Block → Option Block → State Block World × Option Hash
  decide_prevote s none none = (s, none)
  decide_prevote s none (some proposed) = (s, some (block_hash e.signing proposed))
  decide_prevote s (some locked) none = (s, none)
  decide_prevote s (some locked) (some proposed) =
      if hash_equal (block_hash e.signing proposed) (block_hash e.signing locked)
      then (s, some (block_hash e.signing locked))
      else if can_unlock s s.proposal
      then (unlock s, some (block_hash e.signing proposed))
      else (s, none)

  unfoldable pub enter_prevote_body :
      (Call → State Block World → Outcome (State Block World))
      → ℤ
      → ℤ
      → State Block World
      → Outcome (State Block World)
  enter_prevote_body go height round s =
      if not (may_enter height round prevote s)
      then done s
      else let (after, hash) =
          decide_prevote (record s { step = prevote }) s.locked_block s.proposal_block in
        go (sign_and_send vote_type_prevote hash) after

  -- enterPrevoteWaitLocked and enterPrecommitWaitLocked.
  unfoldable pub enter_wait_body :
      RoundStep → ℤ → ℤ → State Block World → Outcome (State Block World)
  enter_wait_body step height round s =
      if not (may_enter height round step s)
      then done s
      else done (
          act (schedules (record { height = height; round = round; step = step }))
            (record s { step = step }))

  abbrev hash_of : Option Block → Option Hash
  hash_of none = none
  hash_of (some b) = some (block_hash e.signing b)

  abbrev round_of : Option Block → ℤ → ℤ
  round_of none round = pos 0
  round_of (some b) round = round

  unfoldable pub state_data : State Block World → StateData
  state_data s = record {
    height = s.height;
    round = s.round;
    step = s.step;
    locked_round = round_of s.locked_block s.locked_round;
    locked_block_hash = hash_of s.locked_block;
    valid_round = round_of s.valid_block s.valid_round;
    valid_block_hash = hash_of s.valid_block;
  }

  unfoldable pub lock_on : ℤ → Block → State Block World → State Block World
  lock_on round b s = record s {
    locked_round = round;
    locked_block = some b;
    valid_round = round;
    valid_block = some b;
  }

  -- The lock on the proposed block, if it is the one that has the quorum.
  unfoldable pub lock_or_nil :
      (Call → State Block World → Outcome (State Block World))
      → ℤ
      → Hash
      → Option Block
      → State Block World
      → Outcome (State Block World)
  lock_or_nil go round hash none s = go (sign_and_send vote_type_precommit none) s
  lock_or_nil go round hash (some b) s =
      if hash_equal (block_hash e.signing b) hash
      then (write_log e (log_state (state_data (lock_on round b s))) (lock_on round b s) >>= λ s.
          go (sign_and_send vote_type_precommit (some hash)) s)
      else go (sign_and_send vote_type_precommit none) s

  -- By what TwoThirdsMajority of the prevotes returns.
  unfoldable pub decide_precommit :
      (Call → State Block World → Outcome (State Block World))
      → ℤ
      → Option Hash × Bool
      → State Block World
      → Outcome (State Block World)
  decide_precommit go round (hash, false) s = go (sign_and_send vote_type_precommit none) s
  decide_precommit go round (none, true) s = go (sign_and_send vote_type_precommit none) (unlock s)
  decide_precommit go round (some hash, true) s =
      if is_hash_empty (some hash)
      then go (sign_and_send vote_type_precommit none) (unlock s)
      else lock_or_nil go round hash s.proposal_block s

  unfoldable pub precommit_on :
      (Call → State Block World → Outcome (State Block World))
      → ℤ
      → Option VoteSet
      → State Block World
      → Outcome (State Block World)
  precommit_on go round none s = go (sign_and_send vote_type_precommit none) s
  precommit_on go round (some vs) s = decide_precommit go round (VoteSet.two_thirds_majority vs) s

  unfoldable pub enter_precommit_body :
      (Call → State Block World → Outcome (State Block World))
      → ℤ
      → ℤ
      → State Block World
      → Outcome (State Block World)
  enter_precommit_body go height round s =
      if not (may_enter height round precommit s)
      then done s
      else precommit_on go round (prevotes_of s.votes round) (record s { step = precommit })

  -- The validator with the key of the signer.
  unfoldable pub find_validator : List NamedValidator → Option ℕ
  find_validator [] = none
  find_validator (v ∷ vs) =
      if public_key_equal v.public_key e.pub_key then some v.index else find_validator vs

  unfoldable pub own_vote : ℤ → Option Hash → NamedValidator → ℕ → ℤ → State Block World → Vote
  own_vote vote_type hash val index now s = record {
    type' = vote_type;
    height = s.height;
    round = s.round;
    block_hash = hash;
    timestamp = now;
    validator = val.name;
    validator_index = index;
    signature = record { data' = [] };
  }

  -- The switch on the type of the vote, and the broadcast.
  unfoldable pub after_own_vote :
      (Call → State Block World → Outcome (State Block World))
      → Vote
      → State Block World
      → Outcome (State Block World)
  after_own_vote go vote s =
      (elim (eqb_ℤ vote.type' vote_type_prevote) [
        | true ↦ go (handle_prevote vote) s
        | false ↦ elim (eqb_ℤ vote.type' vote_type_precommit) [
          | true ↦ go (handle_precommit vote) s
          | false ↦ done s
        ]
      ])
      >>= λ s. done (act (sends_vote vote) s)

  unfoldable pub own_added :
      (Call → State Block World → Outcome (State Block World))
      → Vote
      → State Block World
      → HeightVoteSet × Result
      → Outcome (State Block World)
  own_added go vote s (votes, ok true) = after_own_vote go vote (record s { votes = votes })
  own_added go vote s (votes, ok false) = panicked
  own_added go vote s (votes, err x) = panicked

  -- A signed own vote: logged and added, at the time that AddVote reads.
  unfoldable pub add_own_vote :
      (Call → State Block World → Outcome (State Block World))
      → Vote
      → State Block World
      → Outcome (State Block World)
  add_own_vote go vote s = write_log e (log_vote vote) s >>= λ s.
      let (now, world) = e.now s.world in
      own_added go vote (record s { world = world })
        (HeightVoteSet.add_vote e.signing.crypto s.votes now vote)

  unfoldable pub vote_signed :
      (Call → State Block World → Outcome (State Block World))
      → Vote
      → State Block World
      → World × Answer
      → Outcome (State Block World)
  vote_signed go vote s (world, signed sig) =
      add_own_vote go (record vote { signature = sig }) (record s { world = world })
  vote_signed go vote s (world, refused x) = done (record s { world = world })
  vote_signed go vote s (world, FilePv.panicked) = panicked

  unfoldable pub sign_as :
      (Call → State Block World → Outcome (State Block World))
      → ℤ
      → Option Hash
      → ℕ
      → NamedValidator
      → State Block World
      → Outcome (State Block World)
  sign_as go vote_type hash index val s =
      let (now, world) = e.now s.world in
      let vote = own_vote vote_type hash val index now s in
      vote_signed go vote s (e.sign_vote world e.chain_id vote)

  unfoldable pub sign_and_send_body :
      (Call → State Block World → Outcome (State Block World))
      → ℤ
      → Option Hash
      → State Block World
      → Outcome (State Block World)
  sign_and_send_body go vote_type hash s =
      if not e.has_signer then done s else elim (find_validator s.validator_set.validators) [
        | none ↦ done s
        | some index ↦ elim (get_by_index s.validator_set index) [
          | none ↦ done s
          | some val ↦ sign_as go vote_type hash index val s
        ]
      ]
