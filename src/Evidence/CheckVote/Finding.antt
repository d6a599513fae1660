-- ===== src/Evidence/CheckVote/Finding.antt =====
-- CheckVote, given two votes of one validator for one height, round and type, finds the evidence.
use leaderberry.Prelude.{
  ◌/◌, ◌≡◌, refl, sym, ◌∙◌, ap, true, false, not, ◌&&◌, Option, none, some, ℤ, eqb_ℤ_iff, arith,
  leb, ◌==◌, length, Bytes, bytes_eq_refl, lookup, lookup-insert_self, bytes_key, Bool-cases,
  Option-cases, inl, inr,
}
use leaderberry.Types.Hash.{Hash, hash_equal_sound, hash_equal_refl}
use leaderberry.Types.Account.{account_name_string}
use leaderberry.Types.Vote.{Vote, copy_vote, copy_vote_lem, verify_vote_signature}
use leaderberry.Types.Validator.{ValidatorSet, NamedValidator, get_by_name}
use leaderberry.Evidence.Pool.{Pool, Outside, DuplicateVoteEvidence, max_seen_votes}
use leaderberry.Evidence.CheckVote.{
  found, nothing, vote_key, votes_for_same_block, same_block, prune_oldest_votes, verify_votes,
  verify_duplicate_vote_evidence, make_evidence, compare_votes, track, track_new, check_known,
  check_signed, check_vote,
}
use leaderberry.Evidence.CheckVote.Tracking.{
  SameSlot, IsInjectiveFormat, IsSigned, Tracked, lookup-IsTracked, check_vote-Tracked,
}

SameSlot-trans : (x a b : Vote) → SameSlot x a → SameSlot a b → SameSlot x b
SameSlot-trans x a b (n, h, r, t) (n', h', r', t') = (n ∙ n', h ∙ h', r ∙ r', t ∙ t')

same_block_refl : (a : Option Hash) → same_block a a ≡ true
unfolding same_block
same_block_refl none = refl
same_block_refl (some a) = hash_equal_refl a

-- Votes for one block differ from the same votes.
same_block-differ :
    (x a b : Option Hash) → same_block x a ≡ true → same_block a b ≡ false → same_block x b ≡ false
unfolding same_block
same_block-differ none none b h k = k
same_block-differ none (some a) b h k = cc
same_block-differ (some x) none b h k = cc
same_block-differ (some x) (some a) none h k = refl
same_block-differ (some x) (some a) (some b) h k = rw (sym (hash_equal_sound x a h)) at k

module _ (o : Outside) (chain_id : Bytes) (vals : ValidatorSet) where
  -- What is seen under the key of a vote, once CheckVote has answered that there is nothing.
  abbrev Held : Pool → Vote → Type 0
  Held p v =
      (x : Vote) × (lookup (vote_key o v) p.seen_votes ≡ some x) × (votes_for_same_block x v ≡ true)

  track-Held : (p : Pool) (v : Vote) → Held (track o p v).0 v
  unfolding track votes_for_same_block
  track-Held p v = (
    copy_vote v,
    lookup-insert_self (vote_key o v) (copy_vote v) p.seen_votes,
    rw (copy_vote_lem v) (same_block_refl v.block_hash),
  )

  track_new-Held :
      (p : Pool) (v : Vote) → (track_new o p v).1 ≡ nothing → Held (track_new o p v).0 v
  unfolding track_new
  track_new-Held p v e = elim (Bool-cases (leb max_seen_votes (length p.seen_votes))) [
    | inr f ↦ rw f (track-Held p v)
    | inl f ↦
        elim (Bool-cases
          (leb max_seen_votes (length (prune_oldest_votes p (max_seen_votes / 10)).seen_votes))) [
            | inl g ↦ absurd (ground (arith, e, f, g))
            | inr g ↦ rw (f, g) (track-Held (prune_oldest_votes p (max_seen_votes / 10)) v)
          ]
  ]

  compare_votes-nothing :
      (now : ℤ) (val : NamedValidator) (x v : Vote)
      → compare_votes o now chain_id vals val x v ≡ nothing
      → votes_for_same_block x v ≡ true
  unfolding compare_votes
  compare_votes-nothing now val x v e = elim (Bool-cases (votes_for_same_block x v)) [
    | inl h ↦ h
    | inr h ↦ elim (Bool-cases (length chain_id == 0)) [
      | inl n ↦ absurd (ground (arith, e, h, n))
      | inr n ↦
          elim (Option-cases (
            verify_duplicate_vote_evidence o (some (make_evidence o now vals val x v)) chain_id
              (some vals))) [
                | inl q ↦ absurd (ground (arith, e, h, n, q))
                | inr (err, q) ↦ absurd (ground (arith, e, h, n, q))
              ]
    ]
  ]

  check_known-Held :
      (p : Pool) (now : ℤ) (val : NamedValidator) (v : Vote) (known : Option Vote)
      → lookup (vote_key o v) p.seen_votes ≡ known
      → (check_known o p now chain_id vals val v known).1 ≡ nothing
      → Held (check_known o p now chain_id vals val v known).0 v
  unfolding check_known
  check_known-Held p now val v none k e = track_new-Held p v e
  check_known-Held p now val v (some x) k e = (x, k, compare_votes-nothing now val x v e)

  check_signed-Held :
      (p : Pool) (now : ℤ) (val : NamedValidator) (v : Vote)
      → (check_signed o p now chain_id vals val v).1 ≡ nothing
      → Held (check_signed o p now chain_id vals val v).0 v
  unfolding check_signed
  check_signed-Held p now val v e =
      elim (Bool-cases (
        not (length chain_id == 0)
        && not (verify_vote_signature o.crypto chain_id v val.public_key))) [
          | inl b ↦ absurd (ground (arith, e, b))
          | inr b ↦ rw b (check_known-Held p now val v _ refl (rw b at e))
        ]

  pub check_vote-Held :
      (p : Pool) (now : ℤ) (v : Vote)
      → (check_vote o p now (some v) (some vals) chain_id).1 ≡ nothing
      → Held (check_vote o p now (some v) (some vals) chain_id).0 v
  unfolding check_vote
  check_vote-Held p now v e =
      elim (Option-cases (get_by_name vals (account_name_string v.validator))) [
        | inl n ↦ absurd (ground (arith, e, n))
        | inr (val, n) ↦
            rw (n, check_vote) (check_signed-Held p now val v (rw (n, check_vote) at e))
      ]

  same_slot : (x a : Vote) → IsInjectiveFormat o → vote_key o x ≡ vote_key o a → SameSlot x a
  unfolding vote_key
  same_slot x a inj e = inj _ _ _ _ _ _ _ _ e

  same_key : (a b : Vote) → SameSlot a b → vote_key o a ≡ vote_key o b
  unfolding vote_key
  same_key a b (n, h, r, t) = cc

  -- Two signed votes of one validator for one height, round and type, and different blocks.
  convicts :
      (x b : Vote)
      → SameSlot x b
      → votes_for_same_block x b ≡ false
      → IsSigned o chain_id vals x
      → IsSigned o chain_id vals b
      → verify_votes o chain_id vals x b ≡ none
  unfolding verify_votes
  convicts x b (n, h, r, t) d (val, known, sx) (val', known', sb) =
      let same : some val' ≡ some val = sym known' ∙ (ap (get_by_name vals) (sym n) ∙ known) in
      ground (
        arith,
        n,
        h,
        r,
        t,
        d,
        known,
        sx,
        sb,
        same,
        bytes_eq_refl (account_name_string b.validator),
        eqb_ℤ_iff x.height b.height,
        eqb_ℤ_iff x.round b.round,
        eqb_ℤ_iff x.type' b.type',
      )

  -- The evidence that CheckVote returns for the vote `b` against the vote `a`.
  abbrev pub Convicts : Vote → Vote → DuplicateVoteEvidence → Type 0
  Convicts a b dve =
      (dve.vote_b ≡ b)
      × SameSlot dve.vote_a a
      × (votes_for_same_block dve.vote_a a ≡ true)
      × (verify_duplicate_vote_evidence o (some dve) chain_id (some vals) ≡ none)

  finds :
      (p : Pool) (now : ℤ) (a x b : Vote)
      → (length chain_id == 0) ≡ false
      → lookup (vote_key o b) p.seen_votes ≡ some x
      → SameSlot x a
      → votes_for_same_block x a ≡ true
      → votes_for_same_block x b ≡ false
      → IsSigned o chain_id vals b
      → verify_votes o chain_id vals x b ≡ none
      → (dve : DuplicateVoteEvidence) × (check_vote o p now (some b) (some vals) chain_id
          ≡ (p, found dve))
        × Convicts a b dve
  unfolding check_vote check_signed check_known compare_votes make_evidence
      verify_duplicate_vote_evidence
  finds p now a x b named seen slot same differ (val, known, sb) proved =
      let dve = make_evidence o now vals val x b in
      (
        dve,
        rw (known, check_vote)
            (rw (named, sb, seen)
              (rw (copy_vote_lem x, copy_vote_lem b, differ, proved, named) refl)),
        (
          copy_vote_lem b,
          rw (copy_vote_lem x) slot,
          rw (copy_vote_lem x) same,
          rw (copy_vote_lem x, copy_vote_lem b) proved,
        ),
      )

-- The pool has seen signed votes only, and the format of keys tells different fields apart. If
-- CheckVote, with a chain id, answers nothing for the vote `a`, and is next given a vote `b` with a
-- valid signature of the same validator for the same height, round and type, but another block, then
-- it returns evidence that VerifyDuplicateVoteEvidence accepts: `b`, against a vote for the block and
-- slot of `a`.
pub check_vote-finds :
    (o : Outside) (chain_id : Bytes) (vals : ValidatorSet) (p : Pool) (now later : ℤ) (a b : Vote)
    → IsInjectiveFormat o
    → (length chain_id == 0) ≡ false
    → Tracked o chain_id vals p
    → (check_vote o p now (some a) (some vals) chain_id).1 ≡ nothing
    → SameSlot a b
    → votes_for_same_block a b ≡ false
    → IsSigned o chain_id vals b
    → (dve : DuplicateVoteEvidence) × (check_vote o
          (check_vote o p now (some a) (some vals) chain_id).0
          later
          (some b)
          (some vals)
          chain_id
        ≡ ((check_vote o p now (some a) (some vals) chain_id).0, found dve))
      × Convicts o chain_id vals a b dve
check_vote-finds o chain_id vals p now later a b inj named w e slot differ signed =
    let after = (check_vote o p now (some a) (some vals) chain_id).0 in
    let (x, held, same) = check_vote-Held o chain_id vals p now a e in
    let tracked =
      lookup-IsTracked o chain_id vals after.seen_votes (vote_key o a) x
        (check_vote-Tracked o chain_id vals p now a named w) held in
    let x_slot = same_slot o chain_id vals x a inj tracked.0 in
    let x_differ : votes_for_same_block x b ≡ false =
      unfold votes_for_same_block in
      same_block-differ x.block_hash a.block_hash b.block_hash same differ in
    finds o chain_id vals after later a x b named
      (ap (λ k. lookup k after.seen_votes) (sym (same_key o chain_id vals a b slot)) ∙ held) x_slot
      same x_differ signed
      (convicts o chain_id vals x b (SameSlot-trans x a b x_slot slot) x_differ tracked.1 signed)
