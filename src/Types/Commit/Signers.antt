-- ===== src/Types/Commit/Signers.antt =====
-- What VerifyCommit has established of a commit that it accepts.
use leaderberry.Prelude.{
  ℕ, ◌*◌, ◌<◌, ◌≡◌, refl, sym, ◌∙◌, subst, ap, Bool, true, false, not, ◌&&◌, ◌||◌, ◌⊎◌, Option,
  none, some, List, [], ◌∷◌, ℤ, pos, ◌≤ℤ◌, add64, eqb_ℤ, ◌==◌, if◌then◌else◌, length, Bytes, insert,
  lookup-insert, nat_key, arith, inl, inr, Bool-cases, Option-cases,
}
use leaderberry.Types.Hash.{Hash, hash_equal, hash_equal_sound}
use leaderberry.Types.Vote.{Commit, CommitSig, Crypto, verify_vote_signature}
use leaderberry.Types.Validator.{ValidatorSet, NamedValidator, get_by_index, two_thirds_majority}
use leaderberry.Types.Validator.Tally.{tally, total, tally_eq, tally_none}
use leaderberry.Types.Validator.Quorum.{quorum_overlap, tally_one_more}
use leaderberry.Types.Validator.Member.{WellFormed}
use leaderberry.Types.Commit.{
  PowerResult, ok, err, duplicate_commit_sig, height_mismatch, block_hash_mismatch, no_signatures,
  is_for, commit_vote, seen_before, sum_power, reach, commit_step, checked_power, verify_commit,
}

module _ (c : Crypto) (chain_id : Bytes) (vals : ValidatorSet) (hash : Hash) (commit : Commit) where
  abbrev pub verified_by : CommitSig → Option NamedValidator → Bool
  verified_by sig none = false
  verified_by sig (some val) =
      verify_vote_signature c chain_id (commit_vote commit sig val) val.public_key

  -- A signature that is present, for the block, and verified by the key of the validator it names.
  unfoldable pub is_counted : CommitSig → Bool
  is_counted sig =
      not (length sig.signature.data' == 0)
      && (is_for hash sig.block_hash && verified_by sig (get_by_index vals sig.validator_index))

  unfoldable pub is_signer : List CommitSig → ℕ → Bool
  is_signer [] i = false
  is_signer (sig ∷ sigs) i = (sig.validator_index == i && is_counted sig) || is_signer sigs i

  -- The body of the loop adds the power of the validator exactly for a counted signature.
  step_cases :
      (p : ℤ) (sig : CommitSig) (r : ℤ)
      → commit_step c chain_id vals hash commit p sig ≡ ok r
      → ((is_counted sig ≡ false) × (r ≡ p))
        ⊎ ((val : NamedValidator) × (is_counted sig ≡ true)
            × (get_by_index vals sig.validator_index ≡ some val)
            × (r ≡ add64 p val.voting_power))
  unfolding commit_step checked_power is_counted
  step_cases p sig r e = elim (Option-cases (get_by_index vals sig.validator_index)) [
    | inl none_there ↦ inl (ground (arith, none_there))
    | inr (val, known) ↦
        elim (Bool-cases
          (verify_vote_signature c chain_id (commit_vote commit sig val) val.public_key)) [
            | inl v ↦ elim (Bool-cases (length sig.signature.data' == 0)) [
              | inl empty ↦ inl (ground (arith, empty))
              | inr given ↦ elim (Bool-cases (is_for hash sig.block_hash)) [
                | inl right ↦ inr (val, ground arith, known, ground arith)
                | inr other ↦ inl (ground arith)
              ]
            ]
            | inr v ↦ inl (ground arith)
          ]
  ]

  abbrev pub union : (ℕ → Bool) → List CommitSig → ℕ → Bool
  union p sigs i = p i || is_signer sigs i

  loop_inversion :
      (seen : List (ℕ × Bool)) (p : ℤ) (sig : CommitSig) (sigs : List CommitSig) {r : ℤ}
      → sum_power (commit_step c chain_id vals hash commit) seen p (sig ∷ sigs) ≡ ok r
      → (q : ℤ) × (seen_before seen sig.validator_index ≡ false)
        × (commit_step c chain_id vals hash commit p sig ≡ ok q)
        × (sum_power
              (commit_step c chain_id vals hash commit)
              (insert sig.validator_index true seen)
              q
              sigs
            ≡ ok r)
  unfolding sum_power
  loop_inversion seen p sig sigs e =
      go (seen_before seen sig.validator_index) (commit_step c chain_id vals hash commit p sig) e
    where
      go :
          (b : Bool) (m : PowerResult) {r : ℤ}
          → (if b then err duplicate_commit_sig else elim m [
            | err x ↦ err x
            | ok q ↦
                sum_power
                  (commit_step c chain_id vals hash commit)
                  (insert sig.validator_index true seen)
                  q
                  sigs
          ])
            ≡ ok r
          → (q : ℤ) × (b ≡ false)
            × (m ≡ ok q)
            × (sum_power
                  (commit_step c chain_id vals hash commit)
                  (insert sig.validator_index true seen)
                  q
                  sigs
                ≡ ok r)
      go true m e = cc
      go false (err x) e = cc
      go false (ok q) e = (q, refl, refl, e)

  still_seen :
      (seen : List (ℕ × Bool)) (k i : ℕ)
      → seen_before seen i ≡ true
      → seen_before (insert k true seen) i ≡ true
  still_seen seen k i h = ground (arith, lookup-insert k i true seen)

  now_seen : (seen : List (ℕ × Bool)) (k : ℕ) → seen_before (insert k true seen) k ≡ true
  now_seen seen k = ground (arith, lookup-insert k k true seen)

  -- The power that the loop sums up is that of the signers, each of them once.
  pub sum_power-signers :
      (p : ℕ → Bool) (seen : List (ℕ × Bool)) (sigs : List CommitSig) {r : ℤ}
      → WellFormed vals
      → ((i : ℕ) → p i ≡ true → seen_before seen i ≡ true)
      → sum_power
          (commit_step c chain_id vals hash commit)
          seen
          (pos (tally p vals.validators))
          sigs
        ≡ ok r
      → r ≡ pos (tally (union p sigs) vals.validators)
  unfolding is_signer
  sum_power-signers p seen [] w s e =
      unfold sum_power in
      ground (arith, e, tally_eq p (union p []) vals.validators (λ i. ground arith))
  sum_power-signers p seen (sig ∷ sigs) {r} w s e =
      let (q, fresh, step, rest) = loop_inversion seen _ sig sigs e in
      elim (step_cases _ sig q step) [
        | inl (skipped, same) ↦
            sum_power-signers p (insert sig.validator_index true seen) sigs w
              (λ i h. still_seen seen sig.validator_index i (s i h))
              (subst
                (λ (z : ℤ).
                  sum_power (commit_step c chain_id vals hash commit)
                    (insert sig.validator_index true seen) z sigs
                  ≡ ok r)
                same rest)
            ∙ ap pos (
                tally_eq (union p sigs) (union p (sig ∷ sigs)) vals.validators
                  (λ i. ground (arith, skipped)))
        | inr (val, counted, known, added) ↦
            let here : p sig.validator_index ≡ false =
              ground (arith, s sig.validator_index, fresh) in
            let q' = λ (i : ℕ). p i || sig.validator_index == i in
            sum_power-signers q' (insert sig.validator_index true seen) sigs w
              (λ i h. ground (arith, h, s i, lookup-insert sig.validator_index i true seen))
              (subst
                (λ (z : ℤ).
                  sum_power (commit_step c chain_id vals hash commit)
                    (insert sig.validator_index true seen) z sigs
                  ≡ ok r)
                (added ∙ tally_one_more vals p sig.validator_index val w known here) rest)
            ∙ ap pos (
                tally_eq (union q' sigs) (union p (sig ∷ sigs)) vals.validators
                  (λ i. ground (arith, counted)))
      ]

  accepted_cases :
      (height : ℤ) (m : PowerResult)
      → (if not (eqb_ℤ commit.height height)
          then some height_mismatch
          else if not (hash_equal commit.block_hash hash)
          then some block_hash_mismatch
          else if length commit.signatures == 0
          then some no_signatures
          else reach vals m)
        ≡ none
      → (r : ℤ) × (commit.height ≡ height)
        × (commit.block_hash ≡ hash)
        × (m ≡ ok r)
        × (two_thirds_majority vals ≤ℤ r)
  accepted_cases height (err x) e = ground arith
  accepted_cases height (ok r) e =
      (r, ground arith, ground (arith, hash_equal_sound commit.block_hash hash), refl, ground arith)

  -- A commit that VerifyCommit accepts, for a well-formed validator set, has the height and the block
  -- hash that were asked for, and the validators whose signatures on it are verified have the quorum of
  -- the set.
  pub verify_commit_sound :
      (height : ℤ)
      → WellFormed vals
      → verify_commit c chain_id (some vals) hash height (some commit) ≡ none
      → (commit.height ≡ height)
        × (commit.block_hash ≡ hash)
        × (two_thirds_majority vals ≤ℤ pos (tally (is_signer commit.signatures) vals.validators))
  unfolding verify_commit
  verify_commit_sound height w e =
      let (r, h, b, m, enough) =
        accepted_cases height
          (sum_power (commit_step c chain_id vals hash commit) [] (pos 0) commit.signatures) e in
      (
        h,
        b,
        subst (λ (z : ℤ). two_thirds_majority vals ≤ℤ z)
            (sum_power-signers (λ i. false) [] commit.signatures w (λ i q. cc)
                (subst
                  (λ (z : ℤ).
                    sum_power (commit_step c chain_id vals hash commit) [] z commit.signatures
                    ≡ ok r)
                  (ap pos (sym (tally_none (λ i. false) vals.validators (λ i. refl)))) m)
              ∙ ap pos (
                  tally_eq (union (λ i. false) commit.signatures) (is_signer commit.signatures)
                    vals.validators (λ i. refl)))
            enough,
      )

-- Two commits accepted by VerifyCommit under the same well-formed validator set, whatever their heights,
-- rounds and blocks: the validators that have signed both have more than a third of the total power.
pub verify_commit_overlap :
    (c : Crypto) (chain_id : Bytes) (vals : ValidatorSet) (a b : Hash) (ca cb : Commit) (ha hb : ℤ)
    → WellFormed vals
    → verify_commit c chain_id (some vals) a ha (some ca) ≡ none
    → verify_commit c chain_id (some vals) b hb (some cb) ≡ none
    → total vals.validators
      < 3
        * tally
            (λ i.
              is_signer c chain_id vals a ca ca.signatures i
              && is_signer c chain_id vals b cb cb.signatures i)
            vals.validators
verify_commit_overlap c chain_id vals a b ca cb ha hb w ea eb =
    let (_, _, qa) = verify_commit_sound c chain_id vals a ca ha w ea in
    let (_, _, qb) = verify_commit_sound c chain_id vals b cb hb w eb in
    quorum_overlap vals _ _ w qa qb
