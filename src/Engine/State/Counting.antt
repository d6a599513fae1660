-- ===== src/Engine/State/Counting.antt =====
-- What follows a vote in engine/state.go: handlePrevoteLocked and handlePrecommitLocked, with the jump
-- to a later round.
use leaderberry.Prelude.{
  Bool, true, false, not, ◌&&◌, ◌||◌, Option, none, some, ltb_ℤ, eqb_ℤ, if◌then◌else◌,
}
use leaderberry.Types.Hash.{Hash, is_hash_empty}
use leaderberry.Types.Vote.{Vote}
use leaderberry.Engine.VoteSet.{
  VoteSet, two_thirds_majority, has_two_thirds_majority, has_two_thirds_any,
}
use leaderberry.Engine.HeightVoteSet.{prevotes_of, precommits_of}
use leaderberry.Engine.State.{
  prevote, prevote_wait, precommit, State, Call, enter_new_round, enter_prevote, enter_prevote_wait,
  enter_precommit, enter_precommit_wait, enter_commit, Outcome, done, ◌>>=◌, step_is, prevotes_at,
}

abbrev pub has_majority : Option VoteSet → Bool
has_majority none = false
has_majority (some vs) = has_two_thirds_majority vs

-- A majority for a block, not for nil.
unfoldable pub is_for_block : Option Hash × Bool → Bool
is_for_block (hash, false) = false
is_for_block (none, true) = false
is_for_block (some hash, true) = not (is_hash_empty (some hash))

module _ {Block World : Type 0} where
  -- The jump to the round of a prevote. The vote set of the prevote is read again, through its pointer.
  unfoldable pub skip_to_prevote :
      (Call → State Block World → Outcome (State Block World))
      → Vote
      → State Block World
      → Outcome (State Block World)
  skip_to_prevote go vote s = go (enter_new_round s.height vote.round) s >>= λ t.
      elim (has_majority (prevotes_at s.votes.generation vote.round t)) [
        | true ↦ go (enter_precommit t.height vote.round) t
        | false ↦ go (enter_prevote t.height vote.round) t
      ]

  -- A prevote of the current round.
  unfoldable pub advance_prevote :
      (Call → State Block World → Outcome (State Block World))
      → VoteSet
      → State Block World
      → Outcome (State Block World)
  advance_prevote go vs s = elim (has_two_thirds_majority vs) [
    | true ↦ elim (step_is s.step prevote || step_is s.step prevote_wait) [
      | true ↦ go (enter_precommit s.height s.round) s
      | false ↦ done s
    ]
    | false ↦ elim (has_two_thirds_any vs && step_is s.step prevote) [
      | true ↦ go (enter_prevote_wait s.height s.round) s
      | false ↦ done s
    ]
  ]

  unfoldable pub prevote_counted :
      (Call → State Block World → Outcome (State Block World))
      → Vote
      → Option VoteSet
      → State Block World
      → Outcome (State Block World)
  prevote_counted go vote none s = done s
  prevote_counted go vote (some vs) s = elim (ltb_ℤ s.round vote.round && has_two_thirds_any vs) [
    | true ↦ skip_to_prevote go vote s
    | false ↦ elim (eqb_ℤ vote.round s.round) [ true ↦ advance_prevote go vs s | false ↦ done s ]
  ]

  unfoldable pub handle_prevote_body :
      (Call → State Block World → Outcome (State Block World))
      → Vote
      → State Block World
      → Outcome (State Block World)
  handle_prevote_body go vote s = prevote_counted go vote (prevotes_of s.votes vote.round) s

  -- The jump to the round of a precommit.
  unfoldable pub skip_to_precommit :
      (Call → State Block World → Outcome (State Block World))
      → Vote
      → State Block World
      → Outcome (State Block World)
  skip_to_precommit go vote s = go (enter_new_round s.height vote.round) s >>= λ t.
      go (enter_prevote t.height vote.round) t >>= λ u. go (enter_precommit u.height vote.round) u

  unfoldable pub advance_precommit :
      (Call → State Block World → Outcome (State Block World))
      → Vote
      → VoteSet
      → State Block World
      → Outcome (State Block World)
  advance_precommit go vote vs s = elim (ltb_ℤ s.round vote.round && has_two_thirds_any vs) [
    | true ↦ skip_to_precommit go vote s
    | false ↦
        elim (eqb_ℤ vote.round s.round && (has_two_thirds_any vs && step_is s.step precommit)) [
          | true ↦ go (enter_precommit_wait s.height s.round) s
          | false ↦ done s
        ]
  ]

  -- The round of a commit from a later round.
  abbrev pub reach_round : Vote → State Block World → State Block World
  reach_round vote s = record s { round = if ltb_ℤ s.round vote.round then vote.round else s.round }

  unfoldable pub precommit_counted :
      (Call → State Block World → Outcome (State Block World))
      → Vote
      → Option VoteSet
      → State Block World
      → Outcome (State Block World)
  precommit_counted go vote none s = done s
  precommit_counted go vote (some vs) s = elim (is_for_block (two_thirds_majority vs)) [
    | true ↦ go (enter_commit s.height) (reach_round vote s)
    | false ↦ advance_precommit go vote vs s
  ]

  unfoldable pub handle_precommit_body :
      (Call → State Block World → Outcome (State Block World))
      → Vote
      → State Block World
      → Outcome (State Block World)
  handle_precommit_body go vote s = precommit_counted go vote (precommits_of s.votes vote.round) s
