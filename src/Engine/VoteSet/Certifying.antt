-- ===== src/Engine/VoteSet/Certifying.antt =====
-- VerifyCommit accepts the commit that the precommits of a counted vote set make.
use leaderberry.Prelude.{
  ℕ, ◌≤◌, ◌≡◌, sym, ◌∙◌, subst, true, false, none, some, List, [], ◌∷◌, eqb_ℤ_iff, ◌==◌, Bytes,
  bytes_eq_sound, All, NotAmong, DistinctBy, DistinctKeys, lookup-entries, All-map, lookup, nat_key,
  bytes_key, arith, inl, inr, Bool-cases, Option-cases, sort_by, sort_by-Ascending, sort_by-All,
}
use leaderberry.Types.Hash.{Hash, is_hash_empty, copy_hash_lem, copy_bytes_lem}
use leaderberry.Types.Account.{account_name_equal_sound}
use leaderberry.Types.Vote.{
  Vote, Commit, CommitSig, Crypto, vote_sign_bytes, verify_signature-verify_vote_signature,
  verify_signature-length, vote_type_precommit,
}
use leaderberry.Types.Validator.{get_by_index}
use leaderberry.Types.Validator.Tally.{tally, tally_mono}
use leaderberry.Types.Validator.Member.{get_by_index_lem}
use leaderberry.Types.Commit.{commit_vote, verify_commit, is_for}
use leaderberry.Types.Commit.Signers.{is_counted, is_signer}
use leaderberry.Types.Commit.Accept.{index_of, verify_commit_complete, sort_by-is_signer}
use leaderberry.Engine.VoteSet.{VoteSet, block_hash_key, matches, commit_sig, commit_sigs}
use leaderberry.Engine.VoteSet.Counted.{Counted, IsGenuine, voted_for, power_for}
use leaderberry.Engine.VoteSet.BlockKeys.{vote_for_hash}

commit_sig_lem :
    (v : Vote)
    → commit_sig v ≡ record {
      validator_index = v.validator_index;
      signature = v.signature;
      timestamp = v.timestamp;
      block_hash = v.block_hash;
    }
unfolding commit_sig
commit_sig_lem v = ground (arith, copy_hash_lem v.block_hash, copy_bytes_lem v.signature.data')

-- The signature made of a genuine precommit for the hash is counted by VerifyCommit.
module _ (c : Crypto) (vs : VoteSet) (w : Counted c vs) (hash : Hash) (commit : Commit)
    (type_is : vs.vote_type ≡ vote_type_precommit) (height_is : commit.height ≡ vs.height)
    (round_is : commit.round ≡ vs.round) where
  restored :
      (i : ℕ) (v : Vote) (g : IsGenuine c vs i v) → commit_vote commit (commit_sig v) g.val ≡ v
  unfolding commit_vote matches
  restored i v g = ground (
    arith,
    commit_sig_lem v,
    g.matched,
    eqb_ℤ_iff v.height vs.height,
    eqb_ℤ_iff v.round vs.round,
    eqb_ℤ_iff v.type' vs.vote_type,
    account_name_equal_sound g.val.name v.validator g.named,
  )

  counted :
      (i : ℕ) (v : Vote)
      → IsGenuine c vs i v
      → is_for hash v.block_hash ≡ true
      → is_counted c vs.chain_id vs.validator_set hash commit (commit_sig v) ≡ true
  unfolding is_counted
  counted i v g f =
      let there : get_by_index vs.validator_set i ≡ some g.val =
        get_by_index_lem vs.validator_set i w.valid_set ∙ g.known in
      let checked =
        verify_signature-verify_vote_signature c vs.chain_id v g.val.public_key g.signed in
      ground (
        arith,
        there,
        commit_sig_lem v,
        g.index_lem,
        f,
        restored i v g,
        checked,
        verify_signature-length c g.val.public_key (vote_sign_bytes c vs.chain_id v) v.signature
            g.signed,
      )

  sig_index : (i : ℕ) (v : Vote) → IsGenuine c vs i v → index_of (commit_sig v) ≡ i
  sig_index i v g = ground (arith, commit_sig_lem v, g.index_lem)

  All-counted :
      (m : List (ℕ × Vote))
      → All (λ e. IsGenuine c vs e.0 e.1) m
      → All
          (λ sig. is_counted c vs.chain_id vs.validator_set hash commit sig ≡ true)
          (commit_sigs hash m)
  unfolding commit_sigs
  All-counted [] h = tt
  All-counted ((i, v) ∷ m) h = elim (Bool-cases (is_for hash v.block_hash)) [
    | inl f ↦ rw f (counted i v h.0 f, All-counted m h.1)
    | inr f ↦ rw f (All-counted m h.1)
  ]

  not_among :
      (k : ℕ) (m : List (ℕ × Vote))
      → lookup k m ≡ none
      → All (λ e. IsGenuine c vs e.0 e.1) m
      → NotAmong index_of k (commit_sigs hash m)
  unfolding commit_sigs lookup
  not_among k [] n h = tt
  not_among k ((i, v) ∷ m) n h = elim (Bool-cases (is_for hash v.block_hash)) [
    | inl f ↦
        rw f (
          ground (arith, n, commit_sig_lem v, h.0.index_lem),
          not_among k m (ground (arith, n)) h.1,
        )
    | inr f ↦ rw f (not_among k m (ground (arith, n)) h.1)
  ]

  distinct_sigs :
      (m : List (ℕ × Vote))
      → DistinctKeys m
      → All (λ e. IsGenuine c vs e.0 e.1) m
      → DistinctBy index_of (commit_sigs hash m)
  unfolding commit_sigs
  distinct_sigs [] d h = tt
  distinct_sigs ((i, v) ∷ m) d h = elim (Bool-cases (is_for hash v.block_hash)) [
    | inl f ↦ rw f (
      subst (λ (k : ℕ). NotAmong index_of k (commit_sigs hash m)) (sym (sig_index i v h.0))
          (not_among i m d.0 h.1),
      distinct_sigs m d.1 h.1,
    )
    | inr f ↦ rw f (distinct_sigs m d.1 h.1)
  ]

  signers :
      (m : List (ℕ × Vote)) (i : ℕ) (v : Vote)
      → All (λ e. IsGenuine c vs e.0 e.1) m
      → lookup i m ≡ some v
      → is_for hash v.block_hash ≡ true
      → is_signer c vs.chain_id vs.validator_set hash commit (commit_sigs hash m) i ≡ true
  unfolding commit_sigs is_signer lookup
  signers [] i v h e f = cc
  signers ((j, u) ∷ m) i v h e f = elim (Bool-cases (j == i)) [
    | inl q ↦
        let same : u ≡ v = ground (arith, e, q) in
        ground (arith, same, f, q, sig_index j u h.0, counted j u h.0)
    | inr q ↦ ground (arith, q, signers m i v h.1 (ground (arith, e, q)) f)
  ]

  -- The signatures of MakeCommit are those of a quorum, and VerifyCommit has nothing against them.
  pub commit_accepted :
      (key : Bytes)
      → is_hash_empty (some hash) ≡ false
      → block_hash_key (some hash) ≡ key
      → vs.maj23 ≡ some key
      → commit.block_hash ≡ hash
      → commit.signatures ≡ sort_by index_of (commit_sigs hash vs.votes)
      → verify_commit c vs.chain_id (some vs.validator_set) hash commit.height (some commit) ≡ none
  commit_accepted key full is_key maj same sigs =
      verify_commit_complete c vs.chain_id vs.validator_set hash commit w.valid_set same
        (rw sigs (
          sort_by-Ascending index_of (commit_sigs hash vs.votes)
            (distinct_sigs vs.votes w.distinct entries)))
        (subst
          (λ (l : List CommitSig).
            All (λ sig. is_counted c vs.chain_id vs.validator_set hash commit sig ≡ true) l)
          (sym sigs)
          (sort_by-All index_of _ (commit_sigs hash vs.votes) (All-counted vs.votes entries)))
        (omega (arith, (w.majority_lem key maj).0, enough))
    where
      entries : All (λ e. IsGenuine c vs e.0 e.1) vs.votes
      entries =
          All-map _ _ vs.votes (λ e h. w.genuine e.0 e.1 h) (lookup-entries vs.votes w.distinct)

      covers :
          (i : ℕ)
          → voted_for vs key i ≡ true
          → is_signer c vs.chain_id vs.validator_set hash commit commit.signatures i ≡ true
      covers i h = elim (Option-cases (lookup i vs.votes)) [
        | inl e ↦ absurd (ground (arith, h, e))
        | inr (v, e) ↦
            let to_key : block_hash_key v.block_hash ≡ key =
              bytes_eq_sound (block_hash_key v.block_hash) key (ground (arith, h, e)) in
            subst
              (λ (l : List CommitSig).
                is_signer c vs.chain_id vs.validator_set hash commit l i ≡ true)
              (sym sigs)
              (sort_by-is_signer c vs.chain_id vs.validator_set hash commit
                  (commit_sigs hash vs.votes) i
                ∙ signers vs.votes i v entries e
                    (vote_for_hash v.block_hash hash full (to_key ∙ sym is_key)))
      ]

      enough :
          power_for vs key
          ≤ tally
              (is_signer c vs.chain_id vs.validator_set hash commit commit.signatures)
              vs.validator_set.validators
      enough = tally_mono _ _ vs.validator_set.validators covers
