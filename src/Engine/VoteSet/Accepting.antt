-- ===== src/Engine/VoteSet/Accepting.antt =====
-- Which votes AddVote takes, that it takes them, and that it never drops or replaces one.
use leaderberry.Prelude.{
  ℕ, ◌≤◌, ◌≡◌, refl, true, false, none, some, ℤ, pos, ◌≤ℤ◌, ltb_ℤ-sub64, ◌+ℤ◌, ◌-ℤ◌, arith,
  All-get_elem?, lookup, lookup-insert, nat_key, eq-pos_of_positive, inl, inr, sym, ◌∙◌, le→ltb,
}
use leaderberry.Types.Vote.{Vote, Crypto, copy_vote_lem}
use leaderberry.Types.Validator.{NamedValidator, get_by_index}
use leaderberry.Types.Validator.Tally.{total, power, tally-le-total, power-le-total}
use leaderberry.Types.Validator.Member.{IsPositive, get_by_index_lem}
use leaderberry.Engine.VoteSet.{
  VoteSet, ok, block_votes, block_hash_key, would_overflow, count_vote, check_existing,
  check_validator, add_vote_internal, is_stale, add_vote, store_vote, max_timestamp_drift,
}
use leaderberry.Engine.VoteSet.Counted.{Counted, has_voted, voted_power, voted_for, power_for}
use leaderberry.Engine.VoteSet.Outcome.{Joins, add_vote-Outcome}

no_overflow :
    (c : Crypto) (vs : VoteSet) (i : ℕ) (val : NamedValidator) (p : ℕ)
    → Counted c vs
    → get_by_index vs.validator_set i ≡ some val
    → p ≤ total vs.validator_set.validators
    → would_overflow (pos p) val ≡ false
unfolding would_overflow
no_overflow c vs i val p w known small =
    let there = sym (get_by_index_lem vs.validator_set i w.valid_set) ∙ known in
    let positive =
      eq-pos_of_positive val.voting_power
        (All-get_elem? IsPositive vs.validator_set.validators i val w.valid_set.positive there) in
    let fits = power-le-total vs.validator_set.validators i val there in
    ground
      (arith, positive, fits, w.valid_set.bounded, ltb_ℤ-sub64 9223372036854775807 (power val) p)

count_vote_takes :
    (c : Crypto) (vs : VoteSet) (vote : Vote) (val : NamedValidator)
    → Counted c vs
    → Joins c vs vote val
    → count_vote vs vote val ≡ (store_vote vs vote val, ok true)
unfolding count_vote
count_vote_takes c vs vote val w j =
    let key = block_hash_key vote.block_hash in
    let first : would_overflow vs.sum val ≡ false = rw w.sum_lem (
      no_overflow c vs vote.validator_index val (voted_power vs) w j.known
        (tally-le-total (has_voted vs) vs.validator_set.validators)) in
    let second : would_overflow (block_votes vs key).total_power val ≡ false =
      rw (w.block_lem key) (
        no_overflow c vs vote.validator_index val (power_for vs key) w j.known
          (tally-le-total (voted_for vs key) vs.validator_set.validators)) in
    rw (first, second) refl

add_vote_internal_takes :
    (c : Crypto) (vs : VoteSet) (vote : Vote) (val : NamedValidator)
    → Counted c vs
    → Joins c vs vote val
    → add_vote_internal c vs vote ≡ (store_vote vs vote val, ok true)
unfolding add_vote_internal check_validator check_existing
add_vote_internal_takes c vs vote val w j =
    rw (j.known, add_vote_internal)
      (rw (j.named, j.signed) (rw (j.new, check_existing) (count_vote_takes c vs vote val w j)))

-- AddVote of a vote set whose counts are right and that no Reset has made stale takes every vote for its
-- height, round and type, within ten minutes of the clock, that a validator of the set signed and whose index
-- has no vote yet: the overflow checks never get in the way.
pub add_vote_takes :
    (c : Crypto) (vs : VoteSet) (generation : ℕ) (now : ℤ) (vote : Vote) (val : NamedValidator)
    → Counted c vs
    → Joins c vs vote val
    → is_stale vs generation ≡ false
    → vote.timestamp ≤ℤ now +ℤ max_timestamp_drift
    → now -ℤ max_timestamp_drift ≤ℤ vote.timestamp
    → add_vote c vs generation now vote ≡ (store_vote vs vote val, ok true)
unfolding add_vote
add_vote_takes c vs generation now vote val w j fresh early late =
    rw (fresh, j.matched, le→ltb _ _ early, le→ltb _ _ late)
      (add_vote_internal_takes c vs vote val w j)

store_vote-keeps :
    (vs : VoteSet) (vote old : Vote) (val : NamedValidator) (i : ℕ)
    → lookup vote.validator_index vs.votes ≡ none
    → lookup i vs.votes ≡ some old
    → lookup i (store_vote vs vote val).votes ≡ some old
unfolding store_vote
store_vote-keeps vs vote old val i new e =
    rw (copy_vote_lem vote)
      (ground (arith, new, e, lookup-insert vote.validator_index i vote vs.votes))

-- The first vote that is counted for a validator stays: no call of AddVote drops or replaces it.
pub add_vote-keeps :
    (c : Crypto) (vs : VoteSet) (generation : ℕ) (now : ℤ) (vote old : Vote) (i : ℕ)
    → lookup i vs.votes ≡ some old
    → lookup i (add_vote c vs generation now vote).0.votes ≡ some old
add_vote-keeps c vs generation now vote old i e = elim (add_vote-Outcome c vs vote generation now) [
  | inl (same, _) ↦ rw same e
  | inr (val, j, after, _) ↦ rw after (store_vote-keeps vs vote old val i j.new e)
]
