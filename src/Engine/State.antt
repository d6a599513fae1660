-- ===== src/Engine/State.antt =====
-- The data of engine/state.go: ConsensusState, and what it reads of the outside.
-- A method that holds the mutex is a function on the state. The calls that the methods make of each
-- other form a cycle, so each is a value of `Call`, and Machine runs them. What the signer, the clock,
-- the write-ahead log and the block executor do is read from a world that `Env` steps; a block is its
-- type only. `actions` lists what the state machine has sent out, the latest first, and `retired` the
-- vote sets of heights past, to which a pointer may still lead. Channels, goroutines and log lines are
-- left out: a callback's goroutine runs on a deep copy, so it is a value sent.
pub mod Updates
pub mod Proposing
pub mod Voting
pub mod Counting
pub mod Committing
pub mod Machine
use leaderberry.Prelude.{
  ℕ, Bool, Option, none, some, List, [], ◌∷◌, ℤ, pos, negsuc, Bytes, ltb, ◌==◌, if◌then◌else◌,
  lookup, int_key,
}
use leaderberry.Types.Hash.{Hash, PublicKey}
use leaderberry.Types.Account.{AccountName}
use leaderberry.Types.Vote.{Vote, Commit}
use leaderberry.Types.Validator.{ValidatorSet}
use leaderberry.PrivVal.FilePv.{Proposal, Signing, Answer}
use leaderberry.Evidence.Pool.{Pool, Outside}
use leaderberry.Engine.HeightVoteSet.{HeightVoteSet, new_height_vote_set}
use leaderberry.Engine.VoteSet.{VoteSet}

-- The constants of RoundStepType; `rank` is their value.
pub data RoundStep : Type 0 where
  new_height new_round propose prevote prevote_wait precommit precommit_wait commit : RoundStep

abbrev pub rank : RoundStep → ℕ
rank new_height = 0
rank new_round = 1
rank propose = 2
rank prevote = 3
rank prevote_wait = 4
rank precommit = 5
rank precommit_wait = 6
rank commit = 7

pub record TimeoutInfo : Type 0 where
  pub height : ℤ
  pub round : ℤ
  pub step : RoundStep

-- The state that writeStateLocked logs: a round and a hash for a block that is set.
pub record StateData : Type 0 where
  pub height : ℤ
  pub round : ℤ
  pub step : RoundStep
  pub locked_round : ℤ
  pub locked_block_hash : Option Hash
  pub valid_round : ℤ
  pub valid_block_hash : Option Hash

pub data LogEntry (Block : Type 0) : Type 0 where
  log_proposal : Proposal Block → LogEntry Block
  log_vote : Vote → LogEntry Block
  log_end_height : ℤ → LogEntry Block
  log_state : StateData → LogEntry Block

-- `applies` has the height and the validators under which the block is applied.
pub data Action (Block : Type 0) : Type 0 where
  schedules : TimeoutInfo → Action Block
  sends_proposal : Proposal Block → Action Block
  sends_vote : Vote → Action Block
  writes : LogEntry Block → Action Block
  applies : ℤ → ValidatorSet → Block → Commit → Action Block

pub record ValidatorUpdate : Type 0 where
  pub name : AccountName
  pub public_key : PublicKey
  pub voting_power : ℤ

-- The configuration, and the interfaces PrivValidator, WAL and BlockExecutor. `has_signer`, `has_wal` and
-- `has_executor` say which of them is not nil; `write` answers whether the error was nil.
pub record Env (Block World : Type 0) : Type 0 where
  pub chain_id : Bytes
  pub skip_timeout_commit : Bool
  pub has_signer : Bool
  pub has_wal : Bool
  pub has_executor : Bool
  pub signing : Signing Block
  pub outside : Outside
  pub pub_key : PublicKey
  pub now : World → ℤ × World
  pub sign_vote : World → Bytes → Vote → World × Answer
  pub sign_proposal : World → Bytes → Proposal Block → World × Answer
  pub write : World → LogEntry Block → World × Bool
  pub create_block : World → ℤ → Option Commit → AccountName → World × Option Block
  pub validate_block : World → Block → World × Bool
  pub apply_block : World → Block → Commit → World × Option (List ValidatorUpdate)

pub record State (Block World : Type 0) : Type 0 where
  pub world : World
  pub validator_set : ValidatorSet
  pub height : ℤ
  pub round : ℤ
  pub step : RoundStep
  pub proposal : Option (Proposal Block)
  pub proposal_block : Option Block
  pub locked_round : ℤ
  pub locked_block : Option Block
  pub valid_round : ℤ
  pub valid_block : Option Block
  pub votes : HeightVoteSet
  pub retired : List HeightVoteSet
  pub last_commit : Option Commit
  pub evidence_pool : Option Pool
  pub actions : List (Action Block)

-- The methods that call each other.
pub data Call : Type 0 where
  enter_new_round enter_prevote enter_prevote_wait enter_precommit enter_precommit_wait :
      ℤ → ℤ → Call
  create_proposal : Call
  enter_commit : ℤ → Call
  finalize_commit : ℤ → Commit → Call
  sign_and_send : ℤ → Option Hash → Call
  handle_prevote handle_precommit : Vote → Call

-- A method returns, panics, or has not returned within the depth of calls allowed.
pub data Outcome {ℓ} (A : Type ℓ) : Type ℓ where
  done : A → Outcome A
  panicked : Outcome A
  out_of_fuel : Outcome A

infixl 5 ◌>>=◌
abbrev pub ◌>>=◌ {ℓ κ} : {A : Type ℓ} {B : Type κ} → Outcome A → (A → Outcome B) → Outcome B
done a >>= f = f a
panicked >>= f = panicked
out_of_fuel >>= f = out_of_fuel

abbrev pub step_below : RoundStep → RoundStep → Bool
step_below a b = ltb (rank a) (rank b)

abbrev pub step_is : RoundStep → RoundStep → Bool
step_is a b = rank a == rank b

-- A vote set of the height whose votes have the generation given, now or when it was given up.
abbrev pub find_votes : ℕ → List HeightVoteSet → Option HeightVoteSet
find_votes generation [] = none
find_votes generation (hvs ∷ rest) =
    if hvs.generation == generation then some hvs else find_votes generation rest

module _ {Block World : Type 0} where
  abbrev pub act : Action Block → State Block World → State Block World
  act a s = record s { actions = a ∷ s.actions }

  unfoldable pub prevotes_at : ℕ → ℤ → State Block World → Option VoteSet
  prevotes_at generation round s = elim (find_votes generation (s.votes ∷ s.retired)) [
    | none ↦ none
    | some hvs ↦ lookup round hvs.prevotes
  ]

-- NewConsensusState and the assignments of Start: the state of a height, before enterNewRound.
abbrev pub initial_state :
    {Block World : Type 0}
    → Env Block World
    → World
    → ValidatorSet
    → ℤ
    → Option Commit
    → Option Pool
    → State Block World
initial_state e world vals height last_commit pool = record {
  world = world;
  validator_set = vals;
  height = height;
  round = pos 0;
  step = new_height;
  proposal = none;
  proposal_block = none;
  locked_round = negsuc 0;
  locked_block = none;
  valid_round = negsuc 0;
  valid_block = none;
  votes = new_height_vote_set e.chain_id height vals;
  retired = [];
  last_commit = last_commit;
  evidence_pool = pool;
  actions = [];
}
