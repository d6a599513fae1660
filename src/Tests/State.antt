-- ===== src/Tests/State.antt =====
-- Tests of the state machine: a node whose validator has a quorum by itself, so that its own proposal and
-- votes commit a block as soon as it starts; and one that lacks the block.
use leaderberry.Prelude.{
  ℕ, ◌*◌, ◌<◌, ◌≡◌, ◌≢◌, ◌⊎◌, ◌&&◌, get_elem?, refl, subst, Bool, true, false, Option, none, some,
  List, [], ◌∷◌, All, ℤ, pos, ◌≤ℤ◌, negsuc, arith, Bytes, replicate,
}
use leaderberry.Types.Hash.{Hash}
use leaderberry.Types.Vote.{Vote, Commit}
use leaderberry.Types.Validator.{copy_validator, two_thirds_majority as two_thirds_majority'}
use leaderberry.Types.Validator.Rotation.{get_proposer_for_round}
use leaderberry.Types.Validator.Tally.{tally, total}
use leaderberry.Types.Commit.Signers.{is_signer}
use leaderberry.Engine.State.Machine.Agreement.{IsReached, applied_overlap}
use leaderberry.PrivVal.FilePv.{Proposal, signed, block_hash}
use leaderberry.Engine.VoteSet.{two_thirds_majority}
use leaderberry.Engine.HeightVoteSet.{precommits_of}
use leaderberry.Engine.State.{
  ValidatorUpdate, Env, State, propose, prevote, commit, Action, applies, schedules, sends_proposal,
  sends_vote, writes, handle_precommit, Outcome, done, panicked, out_of_fuel, initial_state,
}
use leaderberry.Engine.State.Updates.Powers.{IsTypedUpdate}
use leaderberry.Engine.State.Proposing.{is_proposer, validate_pol}
use leaderberry.Engine.State.Proposing.Pol.{IsPolVote, has_index, validate_pol_sound}
use leaderberry.Engine.State.Voting.{decide_prevote}
use leaderberry.Engine.State.Voting.Locks.{KeepsTo, GoesOver, decide_prevote_locked}
use leaderberry.Engine.State.Counting.{is_for_block}
use leaderberry.Engine.State.Machine.{
  run, started, handle, Event, takes_vote, takes_timeout, handle_timeout,
}
use leaderberry.Engine.State.Machine.Outcomes.{Every}
use leaderberry.Engine.State.Machine.Invariant.{HasTypedUpdates, Inv}
use leaderberry.Engine.State.Machine.Reaching.{started-Inv}
use leaderberry.Engine.State.Machine.Handling.{handle_ends}
use leaderberry.Engine.State.Machine.Crashing.{handle_precommit-panicked, handle_timeout_restarts}
use leaderberry.Tests.Inputs.{
  letter_crypto, chain, block_x, block_y, precommit, two_validators, two_validators-WellFormed,
  signed_by,
}
use leaderberry.Tests.Heights.{after_one_vote, round_0, round_0_lem}
use leaderberry.Tests.Signing.{letters}
use leaderberry.Tests.Evidence.{numbers}

abbrev node : Env Bytes (Unit {0})
node = record {
  chain_id = chain;
  skip_timeout_commit = false;
  has_signer = true;
  has_wal = true;
  has_executor = true;
  signing = letters;
  outside = numbers;
  pub_key = record { data' = 97 ∷ replicate 31 0 };
  now = λ w. (pos 1000, w);
  sign_vote = λ w c v. (w, signed (signed_by 97));
  sign_proposal = λ w c p. (w, signed (signed_by 97));
  write = λ w entry. (w, true);
  create_block = λ w height last proposer. (w, some block_x.data');
  validate_block = λ w b. (w, true);
  apply_block = λ w b c. (w, some []);
}

abbrev begun : State Bytes (Unit {0})
begun = initial_state node tt two_validators (pos 5) none none

-- The heights at which blocks have been applied, the latest first.
abbrev applied_at : List (Action Bytes) → List ℤ
applied_at [] = []
applied_at (applies h vals b c ∷ rest) = h ∷ applied_at rest
applied_at (schedules x ∷ rest) = applied_at rest
applied_at (sends_proposal x ∷ rest) = applied_at rest
applied_at (sends_vote x ∷ rest) = applied_at rest
applied_at (writes x ∷ rest) = applied_at rest

abbrev summary : Outcome (State Bytes (Unit {0})) → Option (ℤ × List ℤ)
summary (done s) = some (s.height, applied_at s.actions)
summary panicked = none
summary out_of_fuel = none

node-HasTypedUpdates : HasTypedUpdates node
node-HasTypedUpdates w w' b c us e =
    let same : ◌≡◌ {A = List ValidatorUpdate} [] us = cc in subst (All IsTypedUpdate) same tt

abbrev after_commit : List (Event Bytes)
after_commit = takes_timeout (record { height = pos 6; round = pos 0; step = commit }) ∷ []

started-Inv_example : Every (Inv node) (started node 11 after_commit begun)
started-Inv_example =
    started-Inv node node-HasTypedUpdates 11 after_commit tt two_validators (pos 5) none none
      two_validators-WellFormed

abbrev vote_event : Event Bytes
vote_event = takes_vote (precommit 98 1 (some block_x))

handle_ends_example : handle node 11 vote_event begun ≢ out_of_fuel
handle_ends_example = handle_ends node refl 11 (omega arith) vote_event begun

-- The node has the precommit of the first validator, but no block.
abbrev without_block : State Bytes (Unit {0})
without_block = record begun { votes = after_one_vote }

found_lem : precommits_of without_block.votes (pos 0) ≡ some round_0
unfolding precommits_of
found_lem = round_0_lem

for_block_lem : is_for_block (two_thirds_majority round_0) ≡ true
unfolding leaderberry.Prelude.lookup leaderberry.Prelude.bytes_eq leaderberry.Prelude.hex_encode
    leaderberry.Types.Hash.all_zero leaderberry.Types.Hash.is_hash_empty
    leaderberry.Types.Hash.copy_bytes leaderberry.Types.Hash.copy_hash
    leaderberry.Engine.VoteSet.block_hash_key leaderberry.Engine.VoteSet.two_thirds_majority
    leaderberry.Engine.State.Counting.is_for_block
for_block_lem = refl

handle_precommit-panicked_example :
    run node 3 (handle_precommit (precommit 97 0 (some block_x))) without_block ≡ panicked
handle_precommit-panicked_example =
    handle_precommit-panicked node 0 (precommit 97 0 (some block_x)) round_0 without_block refl refl
      refl found_lem for_block_lem

-- A proposal for a block with a prevote of the first validator from the round before.
abbrev pol_vote : Vote
pol_vote = record (precommit 97 0 (some block_x)) { type' = pos 1; round = pos 1 }

abbrev pol_proposal : Proposal Bytes
pol_proposal = record {
  height = pos 5;
  round = pos 2;
  timestamp = pos 1000;
  block = block_x.data';
  pol_round = pos 1;
  pol_votes = pol_vote ∷ [];
  proposer = record { name = some (97 ∷ []) };
  signature = signed_by 97;
}

validate_pol_lem : validate_pol node two_validators pol_proposal ≡ true
unfolding leaderberry.Prelude.◌+ℤ◌ leaderberry.Prelude.wrap64 leaderberry.Prelude.add64
    leaderberry.Prelude.lookup leaderberry.Prelude.bytes_eq leaderberry.Types.Hash.copy_bytes
    leaderberry.Types.Hash.copy_public_key leaderberry.Types.Account.account_name_equal
    leaderberry.Types.Account.copy_account_name leaderberry.Types.Vote.verify_vote_signature
    leaderberry.Types.Validator.copy_validator leaderberry.Types.Validator.get_by_index
    leaderberry.Types.Validator.two_thirds_majority leaderberry.PrivVal.FilePv.hash_bytes
    leaderberry.PrivVal.FilePv.block_hash leaderberry.Engine.State.Proposing.pol_vote_power
    leaderberry.Engine.State.Proposing.pol_power leaderberry.Engine.State.Proposing.validate_pol
validate_pol_lem = refl

validate_pol_sound_example :
    All
      (IsPolVote node two_validators pol_proposal (block_hash letters block_x.data'))
      (pol_vote ∷ [])
    × (two_thirds_majority' two_validators
        ≤ℤ pos (tally (has_index (pol_vote ∷ [])) two_validators.validators))
validate_pol_sound_example =
    validate_pol_sound node two_validators pol_proposal two_validators-WellFormed validate_pol_lem

-- Locked on another block in round 0.
abbrev locked_on_y : State Bytes (Unit {0})
locked_on_y = record begun {
  round = pos 2;
  locked_round = pos 0;
  locked_block = some block_y.data';
  proposal = some pol_proposal;
  proposal_block = some block_x.data';
}

abbrev unlocked : State Bytes (Unit {0})
unlocked = record locked_on_y { locked_round = negsuc 0; locked_block = none }

decides_x :
    decide_prevote node locked_on_y (some block_y.data') (some block_x.data')
    ≡ (unlocked, some block_x)
unfolding leaderberry.Prelude.◌+ℤ◌ leaderberry.Prelude.wrap64 leaderberry.Prelude.add64
    leaderberry.Prelude.lookup leaderberry.Prelude.bytes_eq leaderberry.Types.Hash.copy_bytes
    leaderberry.Types.Hash.copy_public_key leaderberry.Types.Account.account_name_equal
    leaderberry.Types.Account.copy_account_name leaderberry.Types.Vote.verify_vote_signature
    leaderberry.Types.Validator.copy_validator leaderberry.Types.Validator.get_by_index
    leaderberry.Types.Validator.two_thirds_majority leaderberry.PrivVal.FilePv.hash_bytes
    leaderberry.PrivVal.FilePv.block_hash leaderberry.Engine.State.Proposing.pol_vote_power
    leaderberry.Engine.State.Proposing.pol_power leaderberry.Engine.State.Proposing.validate_pol
    leaderberry.Engine.State.Voting.can_unlock leaderberry.Engine.State.Voting.decide_prevote
decides_x = refl

-- The proposal has what lets the node go over to its block.
goes_over :
    KeepsTo node locked_on_y block_y.data' (some block_x.data') unlocked block_x
    ⊎ GoesOver node locked_on_y block_y.data' unlocked block_x
goes_over =
    (decide_prevote_locked node locked_on_y unlocked block_y.data' (some block_x.data') block_x
        two_validators-WellFormed refl).0
      decides_x

abbrev observer : Env Bytes (Unit {0})
observer = record node { has_signer = false }

-- The observer has a proposal, and has gone on to the prevotes.
abbrev at_prevotes : State Bytes (Unit {0})
at_prevotes = record begun {
  step = prevote;
  proposal = some (record pol_proposal { round = pos 0; pol_round = negsuc 0; pol_votes = [] });
  proposal_block = some block_x.data';
}

observer_lem : is_proposer observer (get_proposer_for_round two_validators (pos 0)) ≡ false
unfolding is_proposer get_proposer_for_round copy_validator
observer_lem = refl

restarted_lem :
    (t : State Bytes (Unit {0})) × (handle_timeout observer 1
        (record { height = pos 5; round = pos 0; step = commit })
        at_prevotes
      ≡ done t)
    × (t.round ≡ pos 0)
    × (t.step ≡ propose)
    × (t.proposal_block ≡ none)
restarted_lem = handle_timeout_restarts observer 0 at_prevotes refl observer_lem

-- The state after the start, and the commit of the block that has been applied.
abbrev final : State Bytes (Unit {0})
final = elim (started node 11 [] begun) [ done s ↦ s | panicked ↦ begun | out_of_fuel ↦ begun ]

abbrev the_commit : Commit
the_commit = elim final.last_commit [
  | none ↦ record { height = pos 0; round = pos 0; block_hash = block_x; signatures = [] }
  | some c ↦ c
]

final_lem :
    (summary (started node 11 [] begun) ≡ some (pos 6, pos 5 ∷ []))
    × (started node 11 [] begun ≡ done final)
    × (get_elem? final.actions 4 ≡ some (applies (pos 5) two_validators block_x.data' the_commit))
unfolding leaderberry.Prelude.◌+ℤ◌ leaderberry.Prelude.◌-ℤ◌ leaderberry.Prelude.wrap64
    leaderberry.Prelude.add64 leaderberry.Prelude.sub64 leaderberry.Prelude.lookup
    leaderberry.Prelude.insert leaderberry.Prelude.bytes_eq leaderberry.Prelude.hex_encode
    leaderberry.Types.Hash.all_zero leaderberry.Types.Hash.is_hash_empty
    leaderberry.Types.Hash.copy_bytes leaderberry.Types.Hash.copy_hash
    leaderberry.Types.Hash.copy_public_key leaderberry.Types.Account.account_name_equal
    leaderberry.Types.Account.copy_account_name leaderberry.Types.Vote.copy_vote
    leaderberry.Types.Vote.verify_signature leaderberry.Types.Validator.copy_validator
    leaderberry.Types.Validator.get_by_index leaderberry.Types.Validator.two_thirds_majority
    leaderberry.Types.Validator.Rotation.get_proposer_for_round
    leaderberry.PrivVal.FilePv.hash_bytes leaderberry.PrivVal.FilePv.block_hash
    leaderberry.Engine.VoteSet.new_vote_set leaderberry.Engine.VoteSet.block_hash_key
    leaderberry.Engine.VoteSet.would_overflow leaderberry.Engine.VoteSet.counted_block
    leaderberry.Engine.VoteSet.store_vote leaderberry.Engine.VoteSet.count_vote
    leaderberry.Engine.VoteSet.check_existing leaderberry.Engine.VoteSet.two_thirds_majority
    leaderberry.Engine.VoteSet.has_two_thirds_majority leaderberry.Engine.VoteSet.make_commit
    leaderberry.Engine.VoteSet.is_stale leaderberry.Engine.VoteSet.matches
    leaderberry.Engine.VoteSet.check_validator leaderberry.Engine.VoteSet.add_vote_internal
    leaderberry.Engine.VoteSet.add_vote leaderberry.Engine.HeightVoteSet.new_height_vote_set
    leaderberry.Engine.HeightVoteSet.new_vote_set_with_parent
    leaderberry.Engine.HeightVoteSet.vote_set_at leaderberry.Engine.HeightVoteSet.put_prevotes
    leaderberry.Engine.HeightVoteSet.put_precommits leaderberry.Engine.HeightVoteSet.dispatch_vote
    leaderberry.Engine.HeightVoteSet.prevotes_of leaderberry.Engine.HeightVoteSet.precommits_of
    leaderberry.Engine.HeightVoteSet.add_vote leaderberry.Engine.State.Proposing.written
    leaderberry.Engine.State.Proposing.write_log leaderberry.Engine.State.Proposing.start_round
    leaderberry.Engine.State.Proposing.is_proposer
    leaderberry.Engine.State.Proposing.enter_new_round_body
    leaderberry.Engine.State.Proposing.choose_block leaderberry.Engine.State.Proposing.make_proposal
    leaderberry.Engine.State.Proposing.send_proposal
    leaderberry.Engine.State.Proposing.proposal_signed
    leaderberry.Engine.State.Proposing.sign_and_propose
    leaderberry.Engine.State.Proposing.propose_block
    leaderberry.Engine.State.Proposing.create_proposal_body
    leaderberry.Engine.State.Voting.may_enter leaderberry.Engine.State.Voting.decide_prevote
    leaderberry.Engine.State.Voting.enter_prevote_body leaderberry.Engine.State.Voting.lock_on
    leaderberry.Engine.State.Voting.lock_or_nil leaderberry.Engine.State.Voting.decide_precommit
    leaderberry.Engine.State.Voting.precommit_on
    leaderberry.Engine.State.Voting.enter_precommit_body
    leaderberry.Engine.State.Voting.find_validator leaderberry.Engine.State.Voting.own_vote
    leaderberry.Engine.State.Voting.after_own_vote leaderberry.Engine.State.Voting.own_added
    leaderberry.Engine.State.Voting.add_own_vote leaderberry.Engine.State.Voting.vote_signed
    leaderberry.Engine.State.Voting.sign_as leaderberry.Engine.State.Voting.sign_and_send_body
    leaderberry.Engine.State.Counting.is_for_block leaderberry.Engine.State.Counting.advance_prevote
    leaderberry.Engine.State.Counting.prevote_counted
    leaderberry.Engine.State.Counting.handle_prevote_body
    leaderberry.Engine.State.Counting.precommit_counted
    leaderberry.Engine.State.Counting.handle_precommit_body
    leaderberry.Engine.State.Committing.find_commit
    leaderberry.Engine.State.Committing.next_validators
    leaderberry.Engine.State.Committing.next_height
    leaderberry.Engine.State.Committing.finalize_found
    leaderberry.Engine.State.Committing.enter_commit_body
    leaderberry.Engine.State.Committing.begin_height leaderberry.Engine.State.Committing.move_on
    leaderberry.Engine.State.Committing.applied leaderberry.Engine.State.Committing.finalize_block
    leaderberry.Engine.State.Committing.finalize_commit_body leaderberry.Engine.State.Machine.body
    leaderberry.Engine.State.Machine.run leaderberry.Engine.State.Machine.start
    leaderberry.Engine.State.Machine.receive leaderberry.Engine.State.Machine.started
final_lem = (refl, refl, refl)

final-IsReached : IsReached node final
final-IsReached =
    (11, [], tt, two_validators, pos 5, none, none, two_validators-WellFormed, final_lem.1)

applied_overlap_example :
    4
    < 3
      * tally
          (λ k.
            is_signer letter_crypto chain two_validators
              (block_hash letters block_x.data')
              the_commit
              the_commit.signatures
              k
            && is_signer letter_crypto chain two_validators
                (block_hash letters block_x.data')
                the_commit
                the_commit.signatures
                k)
          two_validators.validators
unfolding total
applied_overlap_example =
    applied_overlap node node final final 4 4 (pos 5) (pos 5) two_validators block_x.data'
      block_x.data' the_commit the_commit refl refl node-HasTypedUpdates node-HasTypedUpdates
      final-IsReached final-IsReached final_lem.2 final_lem.2
