-- ===== src/Engine/PeerState.antt =====
-- What a node knows of its peers: engine/peer_state.go. A method that holds the mutex is a function; the
-- time that a method reads is an argument. The map of the peers is an association list, and a method that
-- ranges over it lists the peers in that list's order, which the code leaves open.
pub mod Bitmap
pub mod Gossip
pub mod Peers
use leaderberry.Prelude.{
  ℕ, zero, suc, ◌+◌, ◌*◌, ◌/◌, ◌%◌, Bool, true, false, not, ◌&&◌, ◌||◌, Option, none, some, List,
  [], ◌∷◌, ◌++◌, map, ℤ, pos, ltb, leb, ◌==◌, ltb_ℤ, eqb_ℤ, if◌then◌else◌, Bytes, bytes_eq, lookup,
  insert, bytes_key, is_some, keep_if, get_or, set, replicate, length, test_bit, with_bit,
}
use leaderberry.Types.Hash.{Hash, hash_empty}
use leaderberry.Types.Vote.{Vote, vote_type_prevote, vote_type_precommit}
use leaderberry.Types.Validator.{ValidatorSet, size}
use leaderberry.Engine.State.{RoundStep, new_height, commit, step_below}

pub record VoteBitmap : Type 0 where
  pub bits : List ℕ  -- uint64
  pub count : ℕ
  pub num_vals : ℕ

unfoldable pub new_vote_bitmap : Option ValidatorSet → VoteBitmap
new_vote_bitmap none = record { bits = []; count = 0; num_vals = 0 }
new_vote_bitmap (some vals) = record {
  bits = replicate ((size vals + 63) / 64) 0;
  count = 0;
  num_vals = size vals;
}

-- The bit of an index, which the words reach for every index below `num_vals`.
unfoldable pub has_unlocked : VoteBitmap → ℕ → Bool
has_unlocked vb index = test_bit (get_or vb.bits (index / 64) 0) (index % 64)

unfoldable pub set_vote : VoteBitmap → ℕ → VoteBitmap
set_vote vb index =
    if leb vb.num_vals index then vb else if has_unlocked vb index then vb else record vb {
      bits = set vb.bits (index / 64) (with_bit (get_or vb.bits (index / 64) 0) (index % 64));
      count = vb.count + 1;
    }

unfoldable pub has : VoteBitmap → ℕ → Bool
has vb index = if leb vb.num_vals index then false else has_unlocked vb index

-- The loop of Missing, for the `n` indices from `i` on, each converted to uint16.
unfoldable pub missing_from : VoteBitmap → ℕ → ℕ → List ℕ
missing_from vb i zero = []
missing_from vb i (suc n) =
    let rest = missing_from vb (suc i) n in
    if has_unlocked vb (i % 65536) then rest else i % 65536 ∷ rest

unfoldable pub missing : VoteBitmap → List ℕ
missing vb = missing_from vb 0 vb.num_vals

pub record PeerRoundState : Type 0 where
  pub height : ℤ
  pub round : ℤ
  pub step : RoundStep
  pub start_time : ℤ
  pub proposal : Bool
  pub proposal_block_id : Hash
  pub prevotes : VoteBitmap
  pub precommits : VoteBitmap
  pub last_commit_round : ℤ
  pub catching_up : Bool

pub record PeerState : Type 0 where
  pub peer_id : Bytes
  pub val_set : Option ValidatorSet
  pub prs : PeerRoundState
  pub last_seen : ℤ

-- The round state at a new height; the fields that the literal leaves out are zero.
abbrev fresh_round_state : Option ValidatorSet → ℤ → ℤ → ℤ → RoundStep → PeerRoundState
fresh_round_state vals now height round step = record {
  height = height;
  round = round;
  step = step;
  start_time = now;
  proposal = false;
  proposal_block_id = record { data' = [] };
  prevotes = new_vote_bitmap vals;
  precommits = new_vote_bitmap vals;
  last_commit_round = pos 0;
  catching_up = false;
}

unfoldable pub new_peer_state : ℤ → Bytes → Option ValidatorSet → PeerState
new_peer_state now peer_id vals = record {
  peer_id = peer_id;
  val_set = vals;
  prs = fresh_round_state vals now (pos 0) (pos 0) new_height;
  last_seen = now;
}

unfoldable pub set_has_proposal : ℤ → PeerState → ℤ → ℤ → Hash → PeerState
set_has_proposal now ps height round hash =
    if not (eqb_ℤ ps.prs.height height) || not (eqb_ℤ ps.prs.round round) then ps else record ps {
      prs = record ps.prs { proposal = true; proposal_block_id = hash };
      last_seen = now;
    }

abbrev pub mark_vote : PeerRoundState → Vote → PeerRoundState
mark_vote prs vote =
    if eqb_ℤ vote.type' vote_type_prevote
    then record prs { prevotes = set_vote prs.prevotes vote.validator_index }
    else if eqb_ℤ vote.type' vote_type_precommit
    then record prs { precommits = set_vote prs.precommits vote.validator_index }
    else prs

unfoldable pub set_has_vote : ℤ → PeerState → Vote → PeerState
set_has_vote now ps vote =
    if not (eqb_ℤ vote.height ps.prs.height)
    then ps
    else if not (eqb_ℤ vote.round ps.prs.round)
    then ps
    else record ps { prs = mark_vote ps.prs vote; last_seen = now }

unfoldable pub apply_new_round_step : ℤ → PeerState → ℤ → ℤ → RoundStep → PeerState
apply_new_round_step now ps height round step =
    if ltb_ℤ height ps.prs.height
    then ps
    else if ltb_ℤ ps.prs.height height
    then record ps { prs = fresh_round_state ps.val_set now height round step; last_seen = now }
    else if ltb_ℤ round ps.prs.round
    then ps
    else if ltb_ℤ ps.prs.round round
    then record ps {
      prs = record ps.prs {
        round = round;
        step = step;
        proposal = false;
        proposal_block_id = record { data' = [] };
        prevotes = new_vote_bitmap ps.val_set;
        precommits = new_vote_bitmap ps.val_set;
      };
      last_seen = now;
    }
    else if step_below ps.prs.step step
    then record ps { prs = record ps.prs { step = step }; last_seen = now }
    else ps

unfoldable pub apply_commit : ℤ → PeerState → ℤ → ℤ → PeerState
apply_commit now ps height round = if not (eqb_ℤ height ps.prs.height) then ps else record ps {
  prs = record ps.prs { last_commit_round = round; step = commit };
  last_seen = now;
}

unfoldable pub set_catching_up : PeerState → Bool → PeerState
set_catching_up ps catching = record ps { prs = record ps.prs { catching_up = catching } }

unfoldable pub update_validator_set : PeerState → Option ValidatorSet → PeerState
update_validator_set ps vals = record ps {
  val_set = vals;
  prs = record ps.prs { prevotes = new_vote_bitmap vals; precommits = new_vote_bitmap vals };
}

abbrev pub wants : PeerRoundState → Vote → Bool
wants prs vote =
    if eqb_ℤ vote.type' vote_type_prevote
    then not (has prs.prevotes vote.validator_index)
    else if eqb_ℤ vote.type' vote_type_precommit
    then not (has prs.precommits vote.validator_index)
    else false

abbrev pub wants_at : ℤ → ℤ → Bool → Vote → Bool
wants_at height round wanted vote =
    if not (eqb_ℤ vote.height height) || not (eqb_ℤ vote.round round) then false else wanted

unfoldable pub needs_vote : PeerState → Vote → Bool
needs_vote ps vote = wants_at ps.prs.height ps.prs.round (wants ps.prs vote) vote

unfoldable pub needs_proposal : PeerState → ℤ → ℤ → Bool
needs_proposal ps height round =
    eqb_ℤ ps.prs.height height && (eqb_ℤ ps.prs.round round && not ps.prs.proposal)
