-- ===== src/Engine/State/Proposing.antt =====
-- Proposals in engine/state.go: enterNewRoundLocked, createAndSendProposalLocked and validatePOL.
pub mod Pol
pub mod Accepting
use leaderberry.Prelude.{
  ℕ, ◌≡◌, Bool, true, false, not, ◌&&◌, ◌||◌, Option, none, some, List, [], ◌∷◌, ℤ, pos, negsuc,
  add64, ltb_ℤ, leb_ℤ, eqb_ℤ, ◌==◌, if◌then◌else◌, length, Bytes, bytes_eq, lookup, insert, nat_key,
  int_key, is_some,
}
use leaderberry.Types.Hash.{Hash, PublicKey, Signature, hash_equal}
use leaderberry.Types.Account.{account_name_equal}
use leaderberry.Types.Vote.{Vote, vote_type_prevote, verify_vote_signature}
use leaderberry.Types.Validator.{ValidatorSet, NamedValidator, get_by_index, two_thirds_majority}
use leaderberry.Types.Validator.Rotation.{get_proposer_for_round}
use leaderberry.PrivVal.FilePv.{Proposal, block_hash, Answer, signed, refused}
use leaderberry.PrivVal.FilePv
use leaderberry.Engine.VoteSet.{VoteSet, get_votes}
use leaderberry.Engine.HeightVoteSet.{prevotes_of}
use leaderberry.Engine.State.{
  RoundStep, propose, TimeoutInfo, LogEntry, log_proposal, Action, schedules, sends_proposal,
  writes, Env, State, Call, enter_prevote, create_proposal, Outcome, done, panicked, ◌>>=◌, act,
}

-- PublicKeyEqual.
abbrev pub public_key_equal : PublicKey → PublicKey → Bool
public_key_equal a b = bytes_eq a.data' b.data'

abbrev pub names : Option Hash → Hash → Bool
names none h = false
names (some a) h = hash_equal a h

abbrev pub enough : ValidatorSet → Option ℤ → Bool
enough vals none = false
enough vals (some power) = leb_ℤ (two_thirds_majority vals) power

module _ {Block World : Type 0} (e : Env Block World) where
  unfoldable pub written :
      LogEntry Block → State Block World → World × Bool → Outcome (State Block World)
  written entry s (world, true) = done (act (writes entry) (record s { world = world }))
  written entry s (world, false) = panicked

  -- WriteSync and Write, whose failure panics; without a log nothing is written.
  unfoldable pub write_log : LogEntry Block → State Block World → Outcome (State Block World)
  write_log entry s = if not e.has_wal then done s else written entry s (e.write s.world entry)

  -- The assignments and the timeout of a new round.
  unfoldable pub start_round : ℤ → ℤ → State Block World → State Block World
  start_round height round s =
      let fresh = eqb_ℤ round (pos 0) in
      act (schedules (record { height = height; round = round; step = propose })) (record s {
        round = round;
        step = propose;
        proposal = none;
        proposal_block = none;
        valid_round = if fresh then negsuc 0 else s.valid_round;
        valid_block = if fresh then none else s.valid_block;
      })

  unfoldable pub is_proposer : Option NamedValidator → Bool
  is_proposer none = false
  is_proposer (some p) = e.has_signer && public_key_equal p.public_key e.pub_key

  unfoldable pub enter_new_round_body :
      (Call → State Block World → Outcome (State Block World))
      → ℤ
      → ℤ
      → State Block World
      → Outcome (State Block World)
  enter_new_round_body go height round s =
      if not (eqb_ℤ s.height height) || ltb_ℤ round s.round
      then done s
      else elim (is_proposer (get_proposer_for_round s.validator_set round)) [
        | true ↦ go create_proposal (start_round height round s)
        | false ↦ done (start_round height round s)
      ]

  -- The block to propose: the valid one, the locked one, or a new one.
  unfoldable pub choose_block :
      NamedValidator → State Block World → State Block World × Option Block
  choose_block p s = elim s.valid_block [
    | some b ↦ (s, some b)
    | none ↦ elim s.locked_block [
      | some b ↦ (s, some b)
      | none ↦
          if not e.has_executor
          then (s, none)
          else let (world, b) = e.create_block s.world s.height s.last_commit p.name in
            (record s { world = world }, b)
    ]
  ]

  -- The prevotes of the valid round.
  unfoldable pub pol_votes : State Block World → List Vote
  pol_votes s =
      if ltb_ℤ s.valid_round (pos 0)
      then []
      else elim (prevotes_of s.votes s.valid_round) [ none ↦ [] | some vs ↦ get_votes vs ]

  unfoldable pub make_proposal : NamedValidator → Block → ℤ → State Block World → Proposal Block
  make_proposal p b now s = record {
    height = s.height;
    round = s.round;
    timestamp = now;
    block = b;
    pol_round = s.valid_round;
    pol_votes = pol_votes s;
    proposer = p.name;
    signature = record { data' = [] };
  }

  -- A signed proposal: logged, accepted and sent.
  unfoldable pub send_proposal :
      (Call → State Block World → Outcome (State Block World))
      → Proposal Block
      → State Block World
      → Outcome (State Block World)
  send_proposal go p s = write_log (log_proposal p) s >>= λ s.
      go (enter_prevote s.height s.round)
        (act (sends_proposal p) (record s { proposal = some p; proposal_block = some p.block }))

  unfoldable pub proposal_signed :
      (Call → State Block World → Outcome (State Block World))
      → Proposal Block
      → State Block World
      → World × Answer
      → Outcome (State Block World)
  proposal_signed go p s (world, signed sig) =
      send_proposal go (record p { signature = sig }) (record s { world = world })
  proposal_signed go p s (world, refused x) = done (record s { world = world })
  proposal_signed go p s (world, FilePv.panicked) = panicked

  unfoldable pub sign_and_propose :
      (Call → State Block World → Outcome (State Block World))
      → NamedValidator
      → Block
      → State Block World
      → Outcome (State Block World)
  sign_and_propose go p b s =
      let (now, world) = e.now s.world in
      let proposal = make_proposal p b now s in
      proposal_signed go proposal s (e.sign_proposal world e.chain_id proposal)

  unfoldable pub propose_block :
      (Call → State Block World → Outcome (State Block World))
      → NamedValidator
      → State Block World × Option Block
      → Outcome (State Block World)
  propose_block go p (s, none) = done s
  propose_block go p (s, some b) = sign_and_propose go p b s

  unfoldable pub create_proposal_body :
      (Call → State Block World → Outcome (State Block World))
      → State Block World
      → Outcome (State Block World)
  create_proposal_body go s = elim (get_proposer_for_round s.validator_set s.round) [
    | none ↦ done s
    | some p ↦ propose_block go p (choose_block p s)
  ]

  -- The checks of a vote against the proposal and its validator.
  unfoldable pub pol_vote_power : Proposal Block → Hash → Vote → Option NamedValidator → Option ℤ
  pol_vote_power p hash vote none = none
  pol_vote_power p hash vote (some val) =
      if not (eqb_ℤ vote.type' vote_type_prevote)
      then none
      else if not (eqb_ℤ vote.height p.height && eqb_ℤ vote.round p.pol_round)
      then none
      else if not (names vote.block_hash hash)
      then none
      else if not (account_name_equal val.name vote.validator)
      then none
      else if not (verify_vote_signature e.signing.crypto e.chain_id vote val.public_key)
      then none
      else some val.voting_power

  -- The loop over the POL votes, with the validators seen and the power so far; `none` is an error.
  unfoldable pub pol_power :
      ValidatorSet → Proposal Block → Hash → List (ℕ × Bool) → ℤ → List Vote → Option ℤ
  pol_power vals p hash seen power [] = some power
  pol_power vals p hash seen power (vote ∷ votes) =
      if is_some (lookup vote.validator_index seen)
      then none
      else elim (pol_vote_power p hash vote (get_by_index vals vote.validator_index)) [
        | none ↦ none
        | some more ↦
            pol_power vals p hash (insert vote.validator_index true seen) (add64 power more) votes
      ]

  -- Whether validatePOL returns nil.
  unfoldable pub validate_pol : ValidatorSet → Proposal Block → Bool
  validate_pol vals p =
      not (length p.pol_votes == 0)
      && enough vals (pol_power vals p (block_hash e.signing p.block) [] (pos 0) p.pol_votes)
