-- ===== src/Engine/VoteSet.antt =====
-- The VoteSet of engine/vote_tracker.go: the votes of one height, round and type.
-- Every method is a function on the record, and a mutex section is one call. The pointer maj23 into
-- the map votesByBlock, whose entries are never replaced, is the key of its entry.
pub mod Counted
pub mod Adding
pub mod Outcome
pub mod Majority
pub mod BlockKeys
pub mod Certifying
pub mod Committing
pub mod Accepting
use leaderberry.Prelude.{
  ℕ, ◌≡◌, Bool, true, false, not, ◌&&◌, Option, none, some, List, [], ◌∷◌, ◌++◌, ℤ, pos, max_int64,
  add64, sub64, ◌+ℤ◌, ◌-ℤ◌, ltb_ℤ, leb_ℤ, eqb_ℤ, ltb, ◌==◌, if◌then◌else◌, length, Bytes,
  hex_encode, nil_key, lookup, insert, nat_key, bytes_key, is_some, sort_by, map,
}
use leaderberry.Types.Hash.{Hash, is_hash_empty, hash_equal, copy_hash, copy_bytes}
use leaderberry.Types.Account.{account_name_equal}
use leaderberry.Types.Vote.{
  Vote, Commit, CommitSig, Crypto, copy_vote, vote_sign_bytes, verify_signature,
  vote_type_precommit,
}
use leaderberry.Types.Validator
use leaderberry.Types.Validator.{ValidatorSet, NamedValidator, get_by_index}

pub record BlockVotes : Type 0 where
  pub block_hash : Option Hash
  pub votes : List Vote
  pub total_power : ℤ

-- `has_parent` says that `parent` is not nil.
pub record VoteSet : Type 0 where
  pub chain_id : Bytes
  pub height : ℤ
  pub round : ℤ
  pub vote_type : ℤ
  pub validator_set : ValidatorSet
  pub votes : List (ℕ × Vote)
  pub votes_by_block : List (Bytes × BlockVotes)
  pub sum : ℤ
  pub maj23 : Option Bytes
  pub peer_maj23 : List (Bytes × Option Hash)
  pub has_parent : Bool
  pub my_generation : ℕ

-- The errors of the package, and the two that wrap ErrInvalidVote for the timestamp.
pub data VoteError : Type 0 where
  stale_vote_set invalid_vote timestamp_in_future timestamp_in_past unknown_validator
        invalid_signature conflicting_vote sum_overflow block_overflow invalid_height :
      VoteError

-- Go's pair (bool, error).
pub data Result : Type 0 where
  ok : Bool → Result
  err : VoteError → Result

-- 10 minutes, in nanoseconds.
abbrev pub max_timestamp_drift : ℤ
max_timestamp_drift = pos 600000000000

unfoldable pub new_vote_set : Bytes → ℤ → ℤ → ℤ → ValidatorSet → VoteSet
new_vote_set chain_id height round vote_type vals = record {
  chain_id = chain_id;
  height = height;
  round = round;
  vote_type = vote_type;
  validator_set = vals;
  votes = [];
  votes_by_block = [];
  sum = pos 0;
  maj23 = none;
  peer_maj23 = [];
  has_parent = false;
  my_generation = 0;
}

unfoldable pub block_hash_key : Option Hash → Bytes
block_hash_key none = nil_key
block_hash_key (some h) = if is_hash_empty (some h) then nil_key else hex_encode h.data'

abbrev same_block_hash : Option Hash → Option Hash → Bool
same_block_hash none none = true
same_block_hash none (some b) = false
same_block_hash (some a) none = false
same_block_hash (some a) (some b) = hash_equal a b

unfoldable pub votes_equal : Vote → Vote → Bool
votes_equal a b =
    if not (eqb_ℤ a.type' b.type' && (eqb_ℤ a.height b.height && eqb_ℤ a.round b.round))
    then false
    else if not (a.validator_index == b.validator_index)
    then false
    else same_block_hash a.block_hash b.block_hash

-- `val.VotingPower > 0 && total > math.MaxInt64 - val.VotingPower`
unfoldable pub would_overflow : ℤ → NamedValidator → Bool
would_overflow total val =
    ltb_ℤ (pos 0) val.voting_power && ltb_ℤ (sub64 max_int64 val.voting_power) total

-- The entry of the map, or the new one that the code makes in its place.
abbrev pub block_votes : VoteSet → Bytes → BlockVotes
block_votes vs key = elim (lookup key vs.votes_by_block) [
  | none ↦ record { block_hash = none; votes = []; total_power = pos 0 }
  | some bv ↦ bv
]

-- The entry with one more vote; a new entry takes the block hash of the vote.
unfoldable pub counted_block : VoteSet → Vote → NamedValidator → BlockVotes
counted_block vs vote val =
    let key = block_hash_key vote.block_hash in
    let bv = block_votes vs key in
    record {
      block_hash =
          if is_some (lookup key vs.votes_by_block)
          then bv.block_hash
          else (copy_vote vote).block_hash;
      votes = bv.votes ++ copy_vote vote ∷ [];
      total_power = add64 bv.total_power val.voting_power;
    }

-- The modifications of addVoteInternal, after all its checks.
unfoldable pub store_vote : VoteSet → Vote → NamedValidator → VoteSet
store_vote vs vote val =
    let key = block_hash_key vote.block_hash in
    let bv = counted_block vs vote val in
    let quorum = Validator.two_thirds_majority vs.validator_set in
    record vs {
      votes = insert (copy_vote vote).validator_index (copy_vote vote) vs.votes;
      sum = add64 vs.sum val.voting_power;
      votes_by_block = insert key bv vs.votes_by_block;
      maj23 = if leb_ℤ quorum bv.total_power && not (is_some vs.maj23) then some key else vs.maj23;
    }

-- From the overflow checks on.
unfoldable pub count_vote : VoteSet → Vote → NamedValidator → VoteSet × Result
count_vote vs vote val =
    if would_overflow vs.sum val
    then (vs, err sum_overflow)
    else if would_overflow (block_votes vs (block_hash_key vote.block_hash)).total_power val
    then (vs, err block_overflow)
    else (store_vote vs vote val, ok true)

-- The check for a duplicate or a conflict.
unfoldable pub check_existing : VoteSet → Vote → NamedValidator → Option Vote → VoteSet × Result
check_existing vs vote val none = count_vote vs vote val
check_existing vs vote val (some existing) =
    if votes_equal existing vote then (vs, ok false) else (vs, err conflicting_vote)

unfoldable pub set_peer_maj23 : VoteSet → Bytes → Option Hash → VoteSet
set_peer_maj23 vs peer_id hash = record vs {
  peer_maj23 = insert peer_id (copy_hash hash) vs.peer_maj23;
}

unfoldable pub two_thirds_majority : VoteSet → Option Hash × Bool
two_thirds_majority vs = elim vs.maj23 [
  | none ↦ (none, false)
  | some key ↦ (copy_hash (block_votes vs key).block_hash, true)
]

unfoldable pub has_two_thirds_majority : VoteSet → Bool
has_two_thirds_majority vs = is_some vs.maj23

unfoldable pub has_two_thirds_any : VoteSet → Bool
has_two_thirds_any vs = leb_ℤ (Validator.two_thirds_majority vs.validator_set) vs.sum

unfoldable pub has_all : VoteSet → Bool
has_all vs = length vs.votes == Validator.size vs.validator_set

unfoldable pub get_vote : VoteSet → ℕ → Option Vote
get_vote vs index = elim (lookup index vs.votes) [ none ↦ none | some v ↦ some (copy_vote v) ]

unfoldable pub get_votes : VoteSet → List Vote
get_votes vs = sort_by (λ v. v.validator_index) (map (λ e. copy_vote e.1) vs.votes)

unfoldable pub get_votes_for_block : VoteSet → Option Hash → List Vote
get_votes_for_block vs hash = elim (lookup (block_hash_key hash) vs.votes_by_block) [
  | none ↦ []
  | some bv ↦ map copy_vote bv.votes
]

-- The loop of MakeCommit over the map, and the signature that it makes of a vote.
unfoldable pub commit_sig : Vote → CommitSig
commit_sig v = record {
  validator_index = v.validator_index;
  signature = record { data' = copy_bytes v.signature.data' };
  timestamp = v.timestamp;
  block_hash = copy_hash v.block_hash;
}

abbrev is_for : Hash → Option Hash → Bool
is_for hash none = false
is_for hash (some h) = not (is_hash_empty (some h)) && hash_equal h hash

unfoldable pub commit_sigs : Hash → List (ℕ × Vote) → List CommitSig
commit_sigs hash [] = []
commit_sigs hash ((i, v) ∷ votes) =
    let sigs = commit_sigs hash votes in
    if is_for hash v.block_hash then commit_sig v ∷ sigs else sigs

abbrev commit_for : VoteSet → Option Hash → Option Commit
commit_for vs none = none
commit_for vs (some hash) =
    if is_hash_empty (some hash)
    then none
    else some (record {
      height = vs.height;
      round = vs.round;
      block_hash = hash;
      signatures = sort_by (λ s. s.validator_index) (commit_sigs hash vs.votes);
    })

unfoldable pub make_commit : VoteSet → Option Commit
make_commit vs =
    if not (eqb_ℤ vs.vote_type vote_type_precommit)
    then none
    else elim vs.maj23 [ none ↦ none | some key ↦ commit_for vs (block_votes vs key).block_hash ]

-- `generation` is what the parent's counter reads, `now` the clock.
unfoldable pub is_stale : VoteSet → ℕ → Bool
is_stale vs generation = vs.has_parent && not (generation == vs.my_generation)

unfoldable pub matches : VoteSet → Vote → Bool
matches vs vote =
    eqb_ℤ vote.height vs.height && (eqb_ℤ vote.round vs.round && eqb_ℤ vote.type' vs.vote_type)

module _ (c : Crypto) where
  -- The checks of name and signature against the validator at the index of the vote.
  unfoldable pub check_validator : VoteSet → Vote → NamedValidator → VoteSet × Result
  check_validator vs vote val =
      if not (account_name_equal val.name vote.validator)
      then (vs, err unknown_validator)
      else if not
          (verify_signature c val.public_key (vote_sign_bytes c vs.chain_id vote) vote.signature)
      then (vs, err invalid_signature)
      else check_existing vs vote val (lookup vote.validator_index vs.votes)

  unfoldable pub add_vote_internal : VoteSet → Vote → VoteSet × Result
  add_vote_internal vs vote = elim (get_by_index vs.validator_set vote.validator_index) [
    | none ↦ (vs, err unknown_validator)
    | some val ↦ check_validator vs vote val
  ]

  unfoldable pub add_vote : VoteSet → ℕ → ℤ → Vote → VoteSet × Result
  add_vote vs generation now vote =
      if is_stale vs generation
      then (vs, err stale_vote_set)
      else if not (matches vs vote)
      then (vs, err invalid_vote)
      else if ltb_ℤ (now +ℤ max_timestamp_drift) vote.timestamp
      then (vs, err timestamp_in_future)
      else if ltb_ℤ vote.timestamp (now -ℤ max_timestamp_drift)
      then (vs, err timestamp_in_past)
      else add_vote_internal vs vote

  unfoldable pub add_vote_for_replay : VoteSet → ℕ → Vote → VoteSet × Result
  add_vote_for_replay vs generation vote =
      if is_stale vs generation
      then (vs, err stale_vote_set)
      else if not (matches vs vote)
      then (vs, err invalid_vote)
      else add_vote_internal vs vote
