-- ===== src/Engine/VoteSet/Counted.antt =====
-- The invariant of a vote set: its sums are the voting powers of the validators whose votes it holds.
use leaderberry.Prelude.{
  ℕ, ◌+◌, ◌≡◌, Bool, true, false, Option, none, some, List, pos, ◌≤ℤ◌, get_elem?, Bytes, bytes_eq,
  lookup, DistinctKeys, nat_key, bytes_key, is_some,
}
use leaderberry.Types.Hash.{Hash}
use leaderberry.Types.Account.{account_name_equal}
use leaderberry.Types.Vote.{Vote, Crypto, verify_signature, vote_sign_bytes}
use leaderberry.Types.Validator.{NamedValidator, two_thirds_majority}
use leaderberry.Types.Validator.Tally.{tally}
use leaderberry.Types.Validator.Member.{WellFormed}
use leaderberry.Engine.VoteSet.{VoteSet, BlockVotes, block_hash_key, block_votes, matches}

abbrev pub has_voted : VoteSet → ℕ → Bool
has_voted vs i = is_some (lookup i vs.votes)

abbrev pub is_vote_for : Bytes → Option Vote → Bool
is_vote_for key none = false
is_vote_for key (some v) = bytes_eq (block_hash_key v.block_hash) key

abbrev pub voted_for : VoteSet → Bytes → ℕ → Bool
voted_for vs key i = is_vote_for key (lookup i vs.votes)

abbrev pub voted_power : VoteSet → ℕ
voted_power vs = tally (has_voted vs) vs.validator_set.validators

abbrev pub power_for : VoteSet → Bytes → ℕ
power_for vs key = tally (voted_for vs key) vs.validator_set.validators

-- A vote that belongs at index `i`: of this height, round and type, and signed by the validator there.
pub record IsGenuine (c : Crypto) (vs : VoteSet) (i : ℕ) (v : Vote) : Type 0 where
  pub val : NamedValidator
  pub index_lem : v.validator_index ≡ i
  pub known : get_elem? vs.validator_set.validators i ≡ some val
  pub named : account_name_equal val.name v.validator ≡ true
  pub signed :
      verify_signature c val.public_key (vote_sign_bytes c vs.chain_id v) v.signature ≡ true
  pub matched : matches vs v ≡ true

pub record Counted (c : Crypto) (vs : VoteSet) : Type 0 where
  pub valid_set : WellFormed vs.validator_set
  pub genuine : (i : ℕ) (v : Vote) → lookup i vs.votes ≡ some v → IsGenuine c vs i v
  pub distinct : DistinctKeys vs.votes
  pub sum_lem : vs.sum ≡ pos (voted_power vs)
  pub block_lem : (key : Bytes) → (block_votes vs key).total_power ≡ pos (power_for vs key)
  pub hash_lem :
      (key : Bytes) (bv : BlockVotes)
      → lookup key vs.votes_by_block ≡ some bv
      → block_hash_key bv.block_hash ≡ key
  pub majority_lem :
      (key : Bytes)
      → vs.maj23 ≡ some key
      → (two_thirds_majority vs.validator_set ≤ℤ pos (power_for vs key))
        × (is_some (lookup key vs.votes_by_block) ≡ true)
  pub no_majority_lem :
      (key : Bytes)
      → vs.maj23 ≡ none
      → pos (power_for vs key + 1) ≤ℤ two_thirds_majority vs.validator_set

-- The claims of peers and the link to a parent do not enter the counts.
pub Counted-relabel :
    (c : Crypto) (vs : VoteSet) (claims : List (Bytes × Option Hash)) (linked : Bool)
    (generation : ℕ)
    → Counted c vs
    → Counted c (record vs { peer_maj23 = claims; has_parent = linked; my_generation = generation })
unfolding matches
Counted-relabel c vs claims linked generation w = record {
  valid_set = w.valid_set;
  genuine = λ i v e.
      let g = w.genuine i v e in
      record {
        val = g.val;
        index_lem = g.index_lem;
        known = g.known;
        named = g.named;
        signed = g.signed;
        matched = g.matched;
      };
  distinct = w.distinct;
  sum_lem = w.sum_lem;
  block_lem = w.block_lem;
  hash_lem = w.hash_lem;
  majority_lem = w.majority_lem;
  no_majority_lem = w.no_majority_lem;
}
