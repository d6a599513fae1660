-- ===== src/Evidence/CheckVote.antt =====
-- CheckVote of evidence/pool.go, with the checks of evidence and the limit on the votes seen.
pub mod Tracking
pub mod Finding
use leaderberry.Prelude.{
  ℕ, zero, suc, ◌+◌, ◌/◌, ◌≡◌, refl, Bool, true, false, not, ◌&&◌, ◌||◌, Option, none, some, List,
  [], ◌∷◌, ◌++◌, ℤ, pos, negsuc, add64, sub64, ◌-ℤ◌, ltb_ℤ, leb_ℤ, eqb_ℤ, leb, ◌==◌, if◌then◌else◌,
  length, take, Bytes, bytes_eq, lookup, insert, bytes_key, is_some, keep_if, max_int64, min_int64,
}
use leaderberry.Types.Hash.{Hash, hash_equal, copy_bytes}
use leaderberry.Types.Account.{account_name_string}
use leaderberry.Types.Vote.{Vote, Crypto, copy_vote, verify_vote_signature}
use leaderberry.Types.Validator.{ValidatorSet, NamedValidator, get_by_name}
use leaderberry.Evidence.Pool.{
  Pool, Outside, DuplicateVoteEvidence, Evidence, EvidenceError, Config, invalid_evidence,
  invalid_vote_height, invalid_vote_round, invalid_vote_type, invalid_validator, same_block_hash,
  vote_pool_full, nil_vote, nil_validator_set, invalid_vote_signature, invalid_signature_a,
  invalid_signature_b, created_invalid, max_seen_votes, vote_protection_window,
  evidence_type_duplicate_vote, add_evidence,
}

-- The pair of CheckVote: evidence, (nil, nil), or an error.
pub data CheckResult : Type 0 where
  found : DuplicateVoteEvidence → CheckResult
  nothing : CheckResult
  failed : EvidenceError → CheckResult

unfoldable pub same_block : Option Hash → Option Hash → Bool
same_block none none = true
same_block none (some b) = false
same_block (some a) none = false
same_block (some a) (some b) = hash_equal a b

unfoldable pub votes_for_same_block : Vote → Vote → Bool
votes_for_same_block a b = same_block a.block_hash b.block_hash

-- The least height below `protected` in the list.
unfoldable pub oldest_height : ℤ → List (Bytes × Vote) → Option ℤ
oldest_height protected [] = none
oldest_height protected ((key, vote) ∷ seen) = elim (oldest_height protected seen) [
  | none ↦ if ltb_ℤ vote.height protected then some vote.height else none
  | some h ↦ if ltb_ℤ vote.height h then some vote.height else some h
]

unfoldable pub remove_first : ℤ → List (Bytes × Vote) → List (Bytes × Vote)
remove_first height [] = []
remove_first height ((key, vote) ∷ seen) =
    let rest = remove_first height seen in
    if eqb_ℤ vote.height height then seen else (key, vote) ∷ rest

-- The loops over the sorted heights and over the votes of a height: one vote of the least height that is
-- left at a time, until `n` are removed.
unfoldable pub remove_oldest : ℕ → ℤ → List (Bytes × Vote) → List (Bytes × Vote)
remove_oldest zero protected seen = seen
remove_oldest (suc n) protected seen = elim (oldest_height protected seen) [
  | none ↦ seen
  | some height ↦ remove_oldest n protected (remove_first height seen)
]

unfoldable pub prune_oldest_votes : Pool → ℕ → Pool
prune_oldest_votes p n =
    let protected = sub64 p.current_height vote_protection_window in
    let bound = if ltb_ℤ protected (pos 0) then pos 0 else protected in
    record p { seen_votes = remove_oldest n bound p.seen_votes }

module _ (o : Outside) where
  unfoldable pub vote_key : Vote → Bytes
  vote_key v = o.format_vote_key (account_name_string v.validator) v.height v.round v.type'

  -- The checks of VerifyDuplicateVoteEvidence past those for nil; `none` is the nil error.
  unfoldable pub verify_votes : Bytes → ValidatorSet → Vote → Vote → Option EvidenceError
  verify_votes chain_id vals a b =
      if not (eqb_ℤ a.height b.height)
      then some invalid_vote_height
      else if not (eqb_ℤ a.round b.round)
      then some invalid_vote_round
      else if not (eqb_ℤ a.type' b.type')
      then some invalid_vote_type
      else if not (bytes_eq (account_name_string a.validator) (account_name_string b.validator))
      then some invalid_validator
      else if votes_for_same_block a b
      then some same_block_hash
      else elim (get_by_name vals (account_name_string a.validator)) [
        | none ↦ some invalid_validator
        | some val ↦
            if not (verify_vote_signature o.crypto chain_id a val.public_key)
            then some invalid_signature_a
            else if not (verify_vote_signature o.crypto chain_id b val.public_key)
            then some invalid_signature_b
            else none
      ]

  unfoldable pub verify_duplicate_vote_evidence :
      Option DuplicateVoteEvidence → Bytes → Option ValidatorSet → Option EvidenceError
  verify_duplicate_vote_evidence none chain_id vals = some invalid_evidence
  verify_duplicate_vote_evidence (some dve) chain_id none = some nil_validator_set
  verify_duplicate_vote_evidence (some dve) chain_id (some vals) =
      verify_votes chain_id vals dve.vote_a dve.vote_b

  -- The evidence of CheckVote at the time `now`.
  unfoldable pub make_evidence :
      ℤ → ValidatorSet → NamedValidator → Vote → Vote → DuplicateVoteEvidence
  make_evidence now vals val existing vote = record {
    vote_a = copy_vote existing;
    vote_b = copy_vote vote;
    total_voting_power = vals.total_power;
    validator_power = val.voting_power;
    timestamp = now;
  }

  abbrev checked : DuplicateVoteEvidence → Option EvidenceError → CheckResult
  checked dve none = found dve
  checked dve (some e) = failed created_invalid

  -- A vote whose key is known.
  unfoldable pub compare_votes :
      ℤ → Bytes → ValidatorSet → NamedValidator → Vote → Vote → CheckResult
  compare_votes now chain_id vals val existing vote =
      let dve = make_evidence now vals val existing vote in
      if votes_for_same_block existing vote
      then nothing
      else if length chain_id == 0
      then found dve
      else checked dve (verify_duplicate_vote_evidence (some dve) chain_id (some vals))

  unfoldable pub track : Pool → Vote → Pool × CheckResult
  track p vote =
      (record p { seen_votes = insert (vote_key vote) (copy_vote vote) p.seen_votes }, nothing)

  -- A vote whose key is new: the limit, and the store.
  unfoldable pub track_new : Pool → Vote → Pool × CheckResult
  track_new p vote =
      let pruned = prune_oldest_votes p (max_seen_votes / 10) in
      if not (leb max_seen_votes (length p.seen_votes))
      then track p vote
      else if leb max_seen_votes (length pruned.seen_votes)
      then (pruned, failed vote_pool_full)
      else track pruned vote

  -- What is seen under the key of the vote decides.
  unfoldable pub check_known :
      Pool → ℤ → Bytes → ValidatorSet → NamedValidator → Vote → Option Vote → Pool × CheckResult
  check_known p now chain_id vals val vote none = track_new p vote
  check_known p now chain_id vals val vote (some existing) =
      (p, compare_votes now chain_id vals val existing vote)

  -- From the signature on.
  unfoldable pub check_signed :
      Pool → ℤ → Bytes → ValidatorSet → NamedValidator → Vote → Pool × CheckResult
  check_signed p now chain_id vals val vote =
      if not (length chain_id == 0)
        && not (verify_vote_signature o.crypto chain_id vote val.public_key)
      then (p, failed invalid_vote_signature)
      else check_known p now chain_id vals val vote (lookup (vote_key vote) p.seen_votes)

  unfoldable pub check_vote :
      Pool → ℤ → Option Vote → Option ValidatorSet → Bytes → Pool × CheckResult
  check_vote p now none vals chain_id = (p, failed nil_vote)
  check_vote p now (some vote) none chain_id = (p, failed nil_validator_set)
  check_vote p now (some vote) (some vals) chain_id =
      elim (get_by_name vals (account_name_string vote.validator)) [
        | none ↦ (p, failed invalid_validator)
        | some val ↦ check_signed p now chain_id vals val vote
      ]

  unfoldable pub add_duplicate_vote_evidence :
      Pool
      → Option DuplicateVoteEvidence
      → Bytes
      → Option ValidatorSet
      → Pool × Option EvidenceError
  add_duplicate_vote_evidence p none chain_id vals = (p, some invalid_evidence)
  add_duplicate_vote_evidence p (some dve) chain_id vals =
      let ev : Evidence = record {
        type' = evidence_type_duplicate_vote;
        height = dve.vote_a.height;
        time = dve.timestamp;
        data' = o.marshal_duplicate dve;
      } in
      if length chain_id == 0
      then add_evidence o p (some ev)
      else elim (verify_duplicate_vote_evidence (some dve) chain_id vals) [
        | none ↦ add_evidence o p (some ev)
        | some e ↦ (p, some e)
      ]
