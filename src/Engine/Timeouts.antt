-- ===== src/Engine/Timeouts.antt =====
-- The timeouts of engine/timeout.go and their configuration in engine/config.go. A duration is an int64
-- of nanoseconds. The timer, its goroutine and its channels are the runtime's and are left out.
pub mod Durations
use leaderberry.Prelude.{
  Bool, not, ◌≡◌, Option, none, some, ℤ, pos, add64, mul64, ltb_ℤ, leb_ℤ, if◌then◌else◌, Bytes,
  length, ◌==◌,
}
use leaderberry.Engine.State.{
  RoundStep, new_height, new_round, propose, prevote, prevote_wait, precommit, precommit_wait,
  commit,
}

pub record TimeoutConfig : Type 0 where
  pub propose : ℤ
  pub propose_delta : ℤ
  pub prevote : ℤ
  pub prevote_delta : ℤ
  pub precommit : ℤ
  pub precommit_delta : ℤ
  pub commit : ℤ

abbrev pub default_timeout_config : TimeoutConfig
default_timeout_config = record {
  propose = pos 3000000000;
  propose_delta = pos 500000000;
  prevote = pos 1000000000;
  prevote_delta = pos 500000000;
  precommit = pos 1000000000;
  precommit_delta = pos 500000000;
  commit = pos 1000000000;
}

-- MaxRoundForTimeout.
abbrev pub max_round_for_timeout : ℤ
max_round_for_timeout = pos 10000

abbrev pub clamped_round : ℤ → ℤ
clamped_round round =
    let least = if ltb_ℤ round (pos 0) then pos 0 else round in
    if ltb_ℤ max_round_for_timeout least then max_round_for_timeout else least

-- A base and a delta for each round.
unfoldable pub grown : ℤ → ℤ → ℤ → ℤ
grown base delta round = add64 base (mul64 (clamped_round round) delta)

-- calculateDuration, for the step and the round of the timeout.
unfoldable pub calculate_duration : TimeoutConfig → RoundStep → ℤ → ℤ
calculate_duration tc propose round = grown tc.propose tc.propose_delta round
calculate_duration tc prevote_wait round = grown tc.prevote tc.prevote_delta round
calculate_duration tc precommit_wait round = grown tc.precommit tc.precommit_delta round
calculate_duration tc commit round = tc.commit
calculate_duration tc new_height round = pos 1000000000
calculate_duration tc new_round round = pos 1000000000
calculate_duration tc prevote round = pos 1000000000
calculate_duration tc precommit round = pos 1000000000

-- The methods Propose, Prevote, Precommit and Commit.
unfoldable pub propose_timeout : TimeoutConfig → ℤ → ℤ
propose_timeout tc round = add64 tc.propose (mul64 (clamped_round round) tc.propose_delta)

unfoldable pub prevote_timeout : TimeoutConfig → ℤ → ℤ
prevote_timeout tc round = add64 tc.prevote (mul64 (clamped_round round) tc.prevote_delta)

unfoldable pub precommit_timeout : TimeoutConfig → ℤ → ℤ
precommit_timeout tc round = add64 tc.precommit (mul64 (clamped_round round) tc.precommit_delta)

unfoldable pub commit_timeout : TimeoutConfig → ℤ
commit_timeout tc = tc.commit

pub data ConfigError : Type 0 where
  empty_chain_id empty_wal_path invalid_max_block_bytes : ConfigError
  propose_not_positive propose_too_large propose_delta_negative : ConfigError
  prevote_not_positive prevote_too_large prevote_delta_negative : ConfigError
  precommit_not_positive precommit_too_large precommit_delta_negative : ConfigError
  commit_not_positive commit_too_large : ConfigError

-- Five minutes.
abbrev pub max_timeout : ℤ
max_timeout = pos 300000000000

-- Validate of the timeouts; `none` is nil.
unfoldable pub validate : TimeoutConfig → Option ConfigError
validate tc =
    if leb_ℤ tc.propose (pos 0)
    then some propose_not_positive
    else if ltb_ℤ max_timeout tc.propose
    then some propose_too_large
    else if ltb_ℤ tc.propose_delta (pos 0)
    then some propose_delta_negative
    else if leb_ℤ tc.prevote (pos 0)
    then some prevote_not_positive
    else if ltb_ℤ max_timeout tc.prevote
    then some prevote_too_large
    else if ltb_ℤ tc.prevote_delta (pos 0)
    then some prevote_delta_negative
    else if leb_ℤ tc.precommit (pos 0)
    then some precommit_not_positive
    else if ltb_ℤ max_timeout tc.precommit
    then some precommit_too_large
    else if ltb_ℤ tc.precommit_delta (pos 0)
    then some precommit_delta_negative
    else if leb_ℤ tc.commit (pos 0)
    then some commit_not_positive
    else if ltb_ℤ max_timeout tc.commit
    then some commit_too_large
    else none

pub record Config : Type 0 where
  pub chain_id : Bytes
  pub timeouts : TimeoutConfig
  pub wal_path : Bytes
  pub wal_sync : Bool
  pub max_block_bytes : ℤ
  pub create_empty_blocks : Bool
  pub create_empty_blocks_interval : ℤ
  pub skip_timeout_commit : Bool

abbrev after_timeouts : Config → Option ConfigError → Option ConfigError
after_timeouts cfg (some x) = some x
after_timeouts cfg none =
    if leb_ℤ cfg.max_block_bytes (pos 0) then some invalid_max_block_bytes else none

-- ValidateBasic.
unfoldable pub validate_basic : Config → Option ConfigError
validate_basic cfg =
    if length cfg.chain_id == 0
    then some empty_chain_id
    else if length cfg.wal_path == 0
    then some empty_wal_path
    else after_timeouts cfg (validate cfg.timeouts)
