-- ===== src/Types/Commit/Accept.antt =====
-- A commit that VerifyCommit cannot refuse: verified signatures in strictly rising order of index.
use leaderberry.Prelude.{
  ℕ, suc, ◌<◌, ◌≡◌, refl, sym, ◌∙◌, subst, ap, Bool, true, false, none, some, List, [], ◌∷◌, ℤ, pos,
  ◌≤ℤ◌, add64, eqb_ℤ_refl, length, Bytes, All, Ascending, insert, lookup, lookup-insert, nat_key,
  arith, inl, inr, Option-cases, sort_by, insert_by,
}
use leaderberry.Types.Hash.{Hash, hash_equal_refl}
use leaderberry.Types.Vote.{Commit, CommitSig, Crypto}
use leaderberry.Types.Validator.{ValidatorSet, get_by_index, two_thirds_majority}
use leaderberry.Types.Validator.Tally.{tally, tally_none}
use leaderberry.Types.Validator.Quorum.{WellFormed-two_thirds}
use leaderberry.Types.Validator.Member.{WellFormed}
use leaderberry.Types.Commit.{ok, seen_before, sum_power, commit_step, checked_power, verify_commit}
use leaderberry.Types.Commit.Signers.{is_counted, is_signer, sum_power-signers}

abbrev pub index_of : CommitSig → ℕ
index_of sig = sig.validator_index

module _ (c : Crypto) (chain_id : Bytes) (vals : ValidatorSet) (hash : Hash) (commit : Commit) where
  step_counted :
      (p : ℤ) (sig : CommitSig)
      → is_counted c chain_id vals hash commit sig ≡ true
      → (r : ℤ) × (commit_step c chain_id vals hash commit p sig ≡ ok r)
  unfolding is_counted commit_step checked_power
  step_counted p sig h = elim (Option-cases (get_by_index vals sig.validator_index)) [
    | inl e ↦ absurd (ground (arith, h, e))
    | inr (val, e) ↦ (add64 p val.voting_power, ground (arith, h, e))
  ]

  sum_power-total :
      (lo : ℕ) (seen : List (ℕ × Bool)) (p : ℤ) (sigs : List CommitSig)
      → ((i : ℕ) → seen_before seen i ≡ true → i < lo)
      → Ascending index_of lo sigs
      → All (λ sig. is_counted c chain_id vals hash commit sig ≡ true) sigs
      → (r : ℤ) × (sum_power (commit_step c chain_id vals hash commit) seen p sigs ≡ ok r)
  unfolding sum_power
  sum_power-total lo seen p [] s a h = (p, refl)
  sum_power-total lo seen p (sig ∷ sigs) s a h =
      let (q, step) = step_counted p sig h.0 in
      let (r, rest) =
        sum_power-total (suc sig.validator_index) (insert sig.validator_index true seen) q sigs
          (λ i e. ground (arith, e, lookup-insert sig.validator_index i true seen, s i, a.0)) a.1
          h.1 in
      (r, rw (unseen, step) rest)
    where
      unseen : seen_before seen sig.validator_index ≡ false
      unseen = ground (arith, s sig.validator_index, a.0)

  some_signature :
      (sigs : List CommitSig)
      → WellFormed vals
      → two_thirds_majority vals
        ≤ℤ pos (tally (is_signer c chain_id vals hash commit sigs) vals.validators)
      → 0 < length sigs
  unfolding is_signer
  some_signature [] w q = absurd (
      omega (
        arith,
        rw (WellFormed-two_thirds vals w) at q,
        tally_none (is_signer c chain_id vals hash commit []) vals.validators (λ i. refl),
      ))
  some_signature (sig ∷ sigs) w q = omega arith

  pub verify_commit_complete :
      WellFormed vals
      → commit.block_hash ≡ hash
      → Ascending index_of 0 commit.signatures
      → All (λ sig. is_counted c chain_id vals hash commit sig ≡ true) commit.signatures
      → two_thirds_majority vals
        ≤ℤ pos (tally (is_signer c chain_id vals hash commit commit.signatures) vals.validators)
      → verify_commit c chain_id (some vals) hash commit.height (some commit) ≡ none
  unfolding verify_commit
  verify_commit_complete w same a h q =
      let (r, e) =
        sum_power-total 0 [] (pos (tally (λ i. false) vals.validators)) commit.signatures
          (λ i f. unfold lookup in ground arith) a h in
      let power =
        sum_power-signers c chain_id vals hash commit (λ i. false) [] commit.signatures w
          (λ i f. cc) e in
      finish r
        (subst
          (λ (z : ℤ).
            sum_power (commit_step c chain_id vals hash commit) [] z commit.signatures ≡ ok r)
          zero_power e)
        (subst (λ (z : ℤ). two_thirds_majority vals ≤ℤ z) (sym power) q)
    where
      zero_power : pos (tally (λ i. false) vals.validators) ≡ pos 0
      zero_power = ap pos (tally_none (λ i. false) vals.validators (λ i. refl))

      finish :
          (r : ℤ)
          → sum_power (commit_step c chain_id vals hash commit) [] (pos 0) commit.signatures ≡ ok r
          → two_thirds_majority vals ≤ℤ r
          → verify_commit c chain_id (some vals) hash commit.height (some commit) ≡ none
      finish r e enough = ground (
        arith,
        e,
        same,
        eqb_ℤ_refl commit.height,
        hash_equal_refl hash,
        some_signature commit.signatures w q,
      )

-- Sorting does not change who has signed.
module _ (c : Crypto) (chain_id : Bytes) (vals : ValidatorSet) (hash : Hash) (commit : Commit) where
  insert_by-is_signer :
      (sig : CommitSig) (sigs : List CommitSig) (i : ℕ)
      → is_signer c chain_id vals hash commit (insert_by index_of sig sigs) i
        ≡ is_signer c chain_id vals hash commit (sig ∷ sigs) i
  unfolding insert_by is_signer
  insert_by-is_signer sig [] i = refl
  insert_by-is_signer sig (x ∷ xs) i = ground (arith, insert_by-is_signer sig xs i)

  pub sort_by-is_signer :
      (sigs : List CommitSig) (i : ℕ)
      → is_signer c chain_id vals hash commit (sort_by index_of sigs) i
        ≡ is_signer c chain_id vals hash commit sigs i
  unfolding sort_by is_signer
  sort_by-is_signer [] i = refl
  sort_by-is_signer (x ∷ xs) i =
      insert_by-is_signer x (sort_by index_of xs) i ∙ ground (arith, sort_by-is_signer xs i)
