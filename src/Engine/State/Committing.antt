-- ===== src/Engine/State/Committing.antt =====
-- Commits in engine/state.go: enterCommitLocked and finalizeCommitLocked.
use leaderberry.Prelude.{
  ℕ, zero, suc, true, false, not, ◌||◌, Option, none, some, List, [], ◌∷◌, ℤ, pos, negsuc, add64,
  eqb_ℤ, if◌then◌else◌,
}
use leaderberry.Types.Hash.{hash_equal}
use leaderberry.Types.Vote.{Commit}
use leaderberry.Types.Validator.{ValidatorSet}
use leaderberry.Types.Validator.Rotation.{with_incremented_priority}
use leaderberry.PrivVal.FilePv.{block_hash}
use leaderberry.Engine.VoteSet.{VoteSet, two_thirds_majority, make_commit}
use leaderberry.Engine.HeightVoteSet.{HeightVoteSet, precommits_of, reset}
use leaderberry.Engine.State.{
  new_height, commit, ValidatorUpdate, log_end_height, schedules, applies, Env, State, Call,
  enter_new_round, finalize_commit, Outcome, done, panicked, ◌>>=◌, act, step_below,
}
use leaderberry.Engine.State.Updates.{apply_validator_updates}
use leaderberry.Engine.State.Proposing.{write_log}
use leaderberry.Engine.State.Counting.{is_for_block}

abbrev pub commit_in : Option VoteSet → Option Commit
commit_in none = none
commit_in (some vs) = if is_for_block (two_thirds_majority vs) then make_commit vs else none

abbrev pub or_else : Option Commit → Option Commit → Option Commit
or_else none other = other
or_else (some c) other = some c

-- The loop from the round before `n` down to 0.
unfoldable pub find_commit : ℕ → HeightVoteSet → Option Commit
find_commit zero hvs = none
find_commit (suc r) hvs =
    let rest = find_commit r hvs in or_else (commit_in (precommits_of hvs (pos r))) rest

abbrev pub rounds_to : ℤ → ℕ
rounds_to (pos r) = suc r
rounds_to (negsuc r) = 0

-- The next validator set; `none` is the error of applyValidatorUpdates.
unfoldable pub next_validators : ValidatorSet → List ValidatorUpdate → Option ValidatorSet
next_validators vals [] = some (with_incremented_priority vals (pos 1))
next_validators vals (u ∷ us) = apply_validator_updates vals (u ∷ us)

module _ {Block World : Type 0} where
  -- The locked block, or else the proposed one.
  abbrev pub block_to_apply : State Block World → Option Block
  block_to_apply s = elim s.locked_block [ none ↦ s.proposal_block | some b ↦ some b ]

  -- The state of the next height.
  unfoldable pub next_height : ℤ → Commit → ValidatorSet → State Block World → State Block World
  next_height height c vals s = record s {
    height = add64 height (pos 1);
    round = pos 0;
    step = new_height;
    proposal = none;
    proposal_block = none;
    locked_round = negsuc 0;
    locked_block = none;
    valid_round = negsuc 0;
    valid_block = none;
    last_commit = some c;
    validator_set = vals;
    votes = reset s.votes (add64 height (pos 1)) vals;
    retired = s.votes ∷ s.retired;
  }

module _ {Block World : Type 0} (e : Env Block World) where
  unfoldable pub finalize_found :
      (Call → State Block World → Outcome (State Block World))
      → ℤ
      → Option Commit
      → State Block World
      → Outcome (State Block World)
  finalize_found go height none s = panicked
  finalize_found go height (some c) s = go (finalize_commit height c) s

  unfoldable pub enter_commit_body :
      (Call → State Block World → Outcome (State Block World))
      → ℤ
      → State Block World
      → Outcome (State Block World)
  enter_commit_body go height s =
      if not (eqb_ℤ s.height height) || not (step_below s.step commit)
      then done s
      else finalize_found go height (find_commit (rounds_to s.round) s.votes)
          (record s { step = commit })

  -- The timeout before the next height, or the next height at once.
  unfoldable pub begin_height :
      (Call → State Block World → Outcome (State Block World))
      → State Block World
      → Outcome (State Block World)
  begin_height go s = elim e.skip_timeout_commit [
    | true ↦ go (enter_new_round s.height (pos 0)) s
    | false ↦ done (act (schedules (record { height = s.height; round = pos 0; step = commit })) s)
  ]

  unfoldable pub move_on :
      (Call → State Block World → Outcome (State Block World))
      → ℤ
      → Commit
      → Option ValidatorSet
      → State Block World
      → Outcome (State Block World)
  move_on go height c none s = panicked
  move_on go height c (some vals) s =
      write_log e (log_end_height height) s >>= λ s. begin_height go (next_height height c vals s)

  -- By what ApplyBlock returns.
  unfoldable pub applied :
      (Call → State Block World → Outcome (State Block World))
      → ℤ
      → Block
      → Commit
      → State Block World
      → World × Option (List ValidatorUpdate)
      → Outcome (State Block World)
  applied go height b c s (world, none) = panicked
  applied go height b c s (world, some updates) =
      move_on go height c (next_validators s.validator_set updates)
        (act (applies height s.validator_set b c) (record s { world = world }))

  unfoldable pub finalize_block :
      (Call → State Block World → Outcome (State Block World))
      → ℤ
      → Commit
      → Option Block
      → State Block World
      → Outcome (State Block World)
  finalize_block go height c none s = panicked
  finalize_block go height c (some b) s =
      if not (hash_equal (block_hash e.signing b) c.block_hash)
      then panicked
      else if e.has_executor
      then applied go height b c s (e.apply_block s.world b c)
      else move_on go height c (next_validators s.validator_set []) s

  unfoldable pub finalize_commit_body :
      (Call → State Block World → Outcome (State Block World))
      → ℤ
      → Commit
      → State Block World
      → Outcome (State Block World)
  finalize_commit_body go height c s = finalize_block go height c (block_to_apply s) s
