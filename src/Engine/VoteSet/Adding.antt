-- ===== src/Engine/VoteSet/Adding.antt =====
-- addVoteInternal keeps the invariant.
use leaderberry.Prelude.{
  ℕ, ◌+◌, ◌≤◌, ◌≡◌, refl, subst, Bool, true, false, none, some, ℤ, pos, ◌≤ℤ◌, add64_pos, arith,
  get_elem?, All-get_elem?, Bytes, bytes_eq, bytes_eq_refl, bytes_eq_sound, lookup, lookup-insert,
  DistinctKeys, insert-DistinctKeys, nat_key, bytes_key, is_some, if◌then◌else◌, ◌==◌, ==_iff,
  eq-pos_of_positive, Bool-cases, inl, inr, Option-cases,
}
use leaderberry.Types.Vote.{Vote, Crypto, copy_vote, copy_vote_lem}
use leaderberry.Types.Validator.{NamedValidator, ValidatorSet, two_thirds_majority}
use leaderberry.Types.Validator.Tally.{
  tally, total, power, tally_join, tally_eq, tally_none, tally-le-total,
}
use leaderberry.Types.Validator.Quorum.{quorum, quorum_lem, WellFormed-two_thirds}
use leaderberry.Types.Validator.Member.{WellFormed, IsPositive}
use leaderberry.Engine.VoteSet.{
  VoteSet, BlockVotes, block_hash_key, block_votes, matches, new_vote_set, store_vote,
  counted_block,
}
use leaderberry.Engine.VoteSet.Counted.{
  has_voted, voted_for, voted_power, power_for, IsGenuine, Counted,
}

-- A new vote set is counted.
pub new_vote_set-Counted :
    (c : Crypto) (chain_id : Bytes) (height round vote_type : ℤ) (vals : ValidatorSet)
    → WellFormed vals
    → Counted c (new_vote_set chain_id height round vote_type vals)
unfolding new_vote_set lookup
new_vote_set-Counted c chain_id height round vote_type vals w = record {
  valid_set = w;
  genuine = λ i v e. cc;
  distinct = tt;
  sum_lem = ground (arith, tally_none (λ i. false) vals.validators (λ i. refl));
  block_lem = λ key. ground (arith, tally_none (λ i. false) vals.validators (λ i. refl));
  hash_lem = λ key bv e. cc;
  majority_lem = λ key e. cc;
  no_majority_lem = λ key e. ground (
    arith,
    tally_none (λ i. false) vals.validators (λ i. refl),
    WellFormed-two_thirds vals w,
    quorum_lem (total vals.validators),
  );
}

-- The vote that joins, and what is known of it.
module _ (c : Crypto) (vs : VoteSet) (vote : Vote) (val : NamedValidator) (w : Counted c vs)
    (new : lookup vote.validator_index vs.votes ≡ none)
    (g : IsGenuine c vs vote.validator_index vote) (same : g.val ≡ val) where
  is_val : get_elem? vs.validator_set.validators vote.validator_index ≡ some val
  is_val = ground (arith, g.known, same)

  val_power : val.voting_power ≡ pos (power val)
  val_power =
      eq-pos_of_positive val.voting_power
        (All-get_elem? IsPositive _ _ val w.valid_set.positive is_val)

  lookup_after :
      (i : ℕ)
      → lookup i (store_vote vs vote val).votes
        ≡ (if vote.validator_index == i then some vote else lookup i vs.votes)
  unfolding store_vote
  lookup_after i = rw (copy_vote_lem vote) (lookup-insert vote.validator_index i vote vs.votes)

  voted_power_after : voted_power (store_vote vs vote val) ≡ voted_power vs + power val
  unfolding store_vote
  voted_power_after =
      tally_join (has_voted vs) (has_voted (store_vote vs vote val)) vs.validator_set.validators
        vote.validator_index val is_val (ground (arith, new)) λ i. ground (arith, lookup_after i)

  power_for_after :
      (key : Bytes)
      → power_for (store_vote vs vote val) key ≡ (
          if bytes_eq (block_hash_key vote.block_hash) key
          then power_for vs key + power val
          else power_for vs key)
  unfolding store_vote
  power_for_after key = elim (Bool-cases (bytes_eq (block_hash_key vote.block_hash) key)) [
    | inl e ↦ rw e (
        tally_join (voted_for vs key) (voted_for (store_vote vs vote val) key)
          vs.validator_set.validators vote.validator_index val is_val (ground (arith, new))
          λ i. ground (arith, lookup_after i, e))
    | inr e ↦ rw e (
        tally_eq (voted_for (store_vote vs vote val) key) (voted_for vs key)
          vs.validator_set.validators
          λ i. ground (arith, lookup_after i, e, new, ==_iff vote.validator_index i))
  ]

  fits : (p : ℕ) → p ≤ total vs.validator_set.validators → p ≤ 1152921504606846976
  fits p h = omega (arith, w.valid_set.bounded)

  still-IsGenuine :
      (i : ℕ) (v : Vote) → IsGenuine c vs i v → IsGenuine c (store_vote vs vote val) i v
  unfolding store_vote matches
  still-IsGenuine i v h = record {
    val = h.val;
    index_lem = h.index_lem;
    known = h.known;
    named = h.named;
    signed = h.signed;
    matched = h.matched;
  }

  IsGenuine-after :
      (i : ℕ) (v : Vote)
      → lookup i (store_vote vs vote val).votes ≡ some v
      → IsGenuine c (store_vote vs vote val) i v
  IsGenuine-after i v e = elim (Bool-cases (vote.validator_index == i)) [
    | inl q ↦ still-IsGenuine i v (
        subst (λ (u : Vote). IsGenuine c vs i u) (ground (arith, lookup_after i))
          (subst (λ (j : ℕ). IsGenuine c vs j vote) ((==_iff vote.validator_index i).0 q) g))
    | inr q ↦ still-IsGenuine i v (w.genuine i v (ground (arith, lookup_after i)))
  ]

  store-fits :
      (p : ℕ → Bool)
      → tally p (store_vote vs vote val).validator_set.validators ≤ 1152921504606846976
  unfolding store_vote
  store-fits p = omega (arith, tally-le-total p vs.validator_set.validators, w.valid_set.bounded)

  sum_after : (store_vote vs vote val).sum ≡ pos (voted_power (store_vote vs vote val))
  sum_after =
      let fits = store-fits (has_voted (store_vote vs vote val)) in
      rw voted_power_after (added (rw voted_power_after at fits))
    where
      added :
          voted_power vs + power val ≤ 1152921504606846976
          → (store_vote vs vote val).sum ≡ pos (voted_power vs + power val)
      added h =
          unfold store_vote in
          ground (arith, w.sum_lem, val_power, add64_pos (voted_power vs) (power val))

  block_votes_after :
      (key : Bytes)
      → block_votes (store_vote vs vote val) key ≡ (
          if bytes_eq (block_hash_key vote.block_hash) key
          then counted_block vs vote val
          else block_votes vs key)
  unfolding store_vote
  block_votes_after key = ground (
    arith,
    lookup-insert (block_hash_key vote.block_hash) key (counted_block vs vote val)
        vs.votes_by_block,
  )

  counted_block-power :
      (counted_block vs vote val).total_power
      ≡ pos (power_for vs (block_hash_key vote.block_hash) + power val)
  counted_block-power =
      let fits = store-fits (voted_for (store_vote vs vote val) (block_hash_key vote.block_hash)) in
      added (block_hash_key vote.block_hash) refl (omega (arith, fits, eq_of_self))
    where
      eq_of_self :
          power_for (store_vote vs vote val) (block_hash_key vote.block_hash)
          ≡ power_for vs (block_hash_key vote.block_hash) + power val
      eq_of_self = ground (
        arith,
        power_for_after (block_hash_key vote.block_hash),
        bytes_eq_refl (block_hash_key vote.block_hash),
      )

      added :
          (key : Bytes)
          → block_hash_key vote.block_hash ≡ key
          → power_for vs key + power val ≤ 1152921504606846976
          → (counted_block vs vote val).total_power ≡ pos (power_for vs key + power val)
      added key e h =
          unfold counted_block in
          ground (arith, e, w.block_lem key, val_power, add64_pos (power_for vs key) (power val))

  block_after :
      (key : Bytes)
      → (block_votes (store_vote vs vote val) key).total_power
        ≡ pos (power_for (store_vote vs vote val) key)
  block_after key = ground (
    arith,
    block_votes_after key,
    power_for_after key,
    counted_block-power,
    w.block_lem key,
    bytes_eq_sound (block_hash_key vote.block_hash) key,
  )

  counted_block-hash :
      block_hash_key (counted_block vs vote val).block_hash ≡ block_hash_key vote.block_hash
  unfolding counted_block
  counted_block-hash =
      elim (Option-cases (lookup (block_hash_key vote.block_hash) vs.votes_by_block)) [
        | inl e ↦ rw (e, copy_vote_lem vote)
        | inr (bv, e) ↦ ground (arith, e, w.hash_lem (block_hash_key vote.block_hash) bv e)
      ]

  hash_after :
      (key : Bytes) (bv : BlockVotes)
      → lookup key (store_vote vs vote val).votes_by_block ≡ some bv
      → block_hash_key bv.block_hash ≡ key
  unfolding store_vote
  hash_after key bv e = ground (
    arith,
    lookup-insert (block_hash_key vote.block_hash) key (counted_block vs vote val)
        vs.votes_by_block,
    counted_block-hash,
    w.hash_lem key bv,
    bytes_eq_sound (block_hash_key vote.block_hash) key,
  )

  quorum_is :
      two_thirds_majority (store_vote vs vote val).validator_set
      ≡ pos (quorum (total vs.validator_set.validators))
  unfolding store_vote
  quorum_is = WellFormed-two_thirds vs.validator_set w.valid_set

  majority_after :
      (key : Bytes)
      → (store_vote vs vote val).maj23 ≡ some key
      → (two_thirds_majority (store_vote vs vote val).validator_set
          ≤ℤ pos (power_for (store_vote vs vote val) key))
        × (is_some (lookup key (store_vote vs vote val).votes_by_block) ≡ true)
  majority_after key e = rw (quorum_is, power_for_after key) (after key e)
    where
      after :
          (key : Bytes)
          → (store_vote vs vote val).maj23 ≡ some key
          → (pos (quorum (total vs.validator_set.validators))
              ≤ℤ pos (
                  if bytes_eq (block_hash_key vote.block_hash) key
                  then power_for vs key + power val
                  else power_for vs key))
            × (is_some (lookup key (store_vote vs vote val).votes_by_block) ≡ true)
      after key e =
          unfold store_vote in
          ground (
            arith,
            e,
            WellFormed-two_thirds vs.validator_set w.valid_set,
            w.majority_lem key,
            counted_block-power,
            bytes_eq_refl key,
            lookup-insert (block_hash_key vote.block_hash) key (counted_block vs vote val)
                vs.votes_by_block,
          )

  no_majority_after :
      (key : Bytes)
      → (store_vote vs vote val).maj23 ≡ none
      → pos (power_for (store_vote vs vote val) key + 1)
        ≤ℤ two_thirds_majority (store_vote vs vote val).validator_set
  no_majority_after key e = rw (quorum_is, power_for_after key) (after key e)
    where
      after :
          (key : Bytes)
          → (store_vote vs vote val).maj23 ≡ none
          → pos (
              (if bytes_eq (block_hash_key vote.block_hash) key
                then power_for vs key + power val
                else power_for vs key)
              + 1)
            ≤ℤ pos (quorum (total vs.validator_set.validators))
      after key e =
          unfold store_vote in
          ground (
            arith,
            e,
            WellFormed-two_thirds vs.validator_set w.valid_set,
            w.no_majority_lem key,
            counted_block-power,
            bytes_eq_sound (block_hash_key vote.block_hash) key,
          )

  distinct_after : DistinctKeys (store_vote vs vote val).votes
  unfolding store_vote
  distinct_after = insert-DistinctKeys _ (copy_vote vote) vs.votes w.distinct

  valid_set_after : WellFormed (store_vote vs vote val).validator_set
  unfolding store_vote
  valid_set_after = w.valid_set

  pub store_vote-Counted : Counted c (store_vote vs vote val)
  store_vote-Counted = record {
    valid_set = valid_set_after;
    genuine = IsGenuine-after;
    distinct = distinct_after;
    sum_lem = sum_after;
    block_lem = block_after;
    hash_lem = hash_after;
    majority_lem = majority_after;
    no_majority_lem = no_majority_after;
  }
