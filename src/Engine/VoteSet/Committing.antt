-- ===== src/Engine/VoteSet/Committing.antt =====
-- MakeCommit: the commit of a counted vote set, and that VerifyCommit accepts it.
use leaderberry.Prelude.{
  ◌≡◌, refl, sym, ◌∙◌, ap, false, none, some, eqb_ℤ_iff, Bytes, lookup, nat_key, bytes_key, arith,
  inl, inr, Option-cases, sort_by,
}
use leaderberry.Types.Hash.{Hash, is_hash_empty}
use leaderberry.Types.Vote.{Commit, Crypto, vote_type_precommit}
use leaderberry.Types.Commit.{verify_commit}
use leaderberry.Types.Commit.Accept.{index_of}
use leaderberry.Engine.VoteSet.{VoteSet, block_hash_key, block_votes, commit_sigs, make_commit}
use leaderberry.Engine.VoteSet.Majority.{HasQuorum, maj23-HasQuorum}
use leaderberry.Engine.VoteSet.Counted.{Counted}
use leaderberry.Engine.VoteSet.BlockKeys.{block_hash_key_lem}
use leaderberry.Engine.VoteSet.Certifying.{commit_accepted}

abbrev pub committed : VoteSet → Hash → Commit
committed vs hash = record {
  height = vs.height;
  round = vs.round;
  block_hash = hash;
  signatures = sort_by index_of (commit_sigs hash vs.votes);
}

-- What MakeCommit has seen when it returns a commit.
make_commit_inversion :
    (vs : VoteSet) (commit : Commit)
    → make_commit vs ≡ some commit
    → (key : Bytes) × (hash : Hash) × (vs.vote_type ≡ vote_type_precommit)
      × (vs.maj23 ≡ some key)
      × ((block_votes vs key).block_hash ≡ some hash)
      × (is_hash_empty (some hash) ≡ false)
      × (commit ≡ committed vs hash)
unfolding make_commit
make_commit_inversion vs commit e = elim (Option-cases vs.maj23) [
  | inl n ↦ absurd (ground (arith, e, n))
  | inr (key, k) ↦ elim (Option-cases (block_votes vs key).block_hash) [
    | inl n ↦ absurd (ground (arith, e, n, k))
    | inr (hash, h) ↦ (
      key,
      hash,
      ground (arith, e, k, h, eqb_ℤ_iff vs.vote_type vote_type_precommit),
      k,
      h,
      ground (arith, e, k, h),
      ground (arith, e, k, h),
    )
  ]
]

-- The majority that MakeCommit finds has its entry in the map.
pub entry_hash :
    (c : Crypto) (vs : VoteSet) (key : Bytes)
    → Counted c vs
    → vs.maj23 ≡ some key
    → block_hash_key (block_votes vs key).block_hash ≡ key
entry_hash c vs key w maj = elim (Option-cases (lookup key vs.votes_by_block)) [
  | inl e ↦ absurd (ground (arith, e, (w.majority_lem key maj).1))
  | inr (bv, e) ↦ ground (arith, e, w.hash_lem key bv e)
]

-- The commit that MakeCommit returns from a counted vote set, VerifyCommit accepts for the chain, the
-- validators and the height of the vote set and for the block hash of the commit.
pub make_commit-verify_commit :
    (c : Crypto) (vs : VoteSet) (commit : Commit)
    → Counted c vs
    → make_commit vs ≡ some commit
    → verify_commit c vs.chain_id (some vs.validator_set) commit.block_hash vs.height (some commit)
      ≡ none
make_commit-verify_commit c vs commit w e =
    let (key, hash, type_is, maj, entry, full, is) = make_commit_inversion vs commit e in
    rw is (
      commit_accepted c vs w hash (committed vs hash) type_is refl refl key full
        (ap block_hash_key (sym entry) ∙ entry_hash c vs key w maj) maj refl refl)

-- MakeCommit returns a commit for every block hash, not nil or empty, that has a quorum of the precommits
-- in a counted vote set.
pub make_commit_total :
    (c : Crypto) (vs : VoteSet) (hash : Hash)
    → Counted c vs
    → vs.vote_type ≡ vote_type_precommit
    → is_hash_empty (some hash) ≡ false
    → HasQuorum vs (block_hash_key (some hash))
    → make_commit vs ≡ some (committed vs hash)
unfolding make_commit
make_commit_total c vs hash w type_is full q =
    let key = block_hash_key (some hash) in
    let maj : vs.maj23 ≡ some key = (maj23-HasQuorum c vs key w).1 q in
    elim (block_hash_key_lem (block_votes vs key).block_hash (some hash)
      (entry_hash c vs key w maj)) [
        | inl (_, empty) ↦ absurd (ground (arith, empty, full))
        | inr entry ↦
            ground (arith, maj, entry, full, eqb_ℤ_iff vs.vote_type vote_type_precommit, type_is)
      ]
