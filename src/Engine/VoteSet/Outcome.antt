-- ===== src/Engine/VoteSet/Outcome.antt =====
-- What addVoteInternal, AddVote and addVoteForReplay return and leave behind, on every branch.
use leaderberry.Prelude.{
  ℕ, ◌≡◌, ◌≢◌, refl, sym, ◌∙◌, true, none, some, ℤ, ltb_ℤ, ◌+ℤ◌, ◌-ℤ◌, lookup, nat_key, ◌⊎◌, inl,
  inr, Option-cases, Bool-cases,
}
use leaderberry.Types.Account.{account_name_equal}
use leaderberry.Types.Vote.{Vote, Crypto, verify_signature, vote_sign_bytes}
use leaderberry.Types.Validator.{NamedValidator, get_by_index}
use leaderberry.Types.Validator.Member.{get_by_index_lem}
use leaderberry.Engine.VoteSet.{
  VoteSet, Result, ok, block_votes, block_hash_key, votes_equal, would_overflow, count_vote,
  check_existing, check_validator, add_vote_internal, is_stale, matches, add_vote,
  add_vote_for_replay, store_vote, max_timestamp_drift,
}
use leaderberry.Engine.VoteSet.Counted.{IsGenuine, Counted}
use leaderberry.Engine.VoteSet.Adding.{store_vote-Counted}

-- What lets a vote in: its index is that of a validator with its name and a key that verifies it,
-- whose vote is not there yet.
pub record Joins (c : Crypto) (vs : VoteSet) (vote : Vote) (val : NamedValidator) : Type 0 where
  pub known : get_by_index vs.validator_set vote.validator_index ≡ some val
  pub named : account_name_equal val.name vote.validator ≡ true
  pub signed :
      verify_signature c val.public_key (vote_sign_bytes c vs.chain_id vote) vote.signature ≡ true
  pub matched : matches vs vote ≡ true
  pub new : lookup vote.validator_index vs.votes ≡ none

-- Either the set stays as it was and the vote was not added, or the vote joins.
abbrev pub Outcome : Crypto → VoteSet → Vote → VoteSet × Result → Type 0
Outcome c vs vote (after, r) =
    ((after ≡ vs) × (r ≢ ok true))
    ⊎ ((val : NamedValidator) × Joins c vs vote val
        × (after ≡ store_vote vs vote val)
        × (r ≡ ok true))

module _ (c : Crypto) (vs : VoteSet) (vote : Vote) where
  count_vote-Outcome :
      (val : NamedValidator) → Joins c vs vote val → Outcome c vs vote (count_vote vs vote val)
  unfolding count_vote
  count_vote-Outcome val j = elim (Bool-cases (would_overflow vs.sum val)) [
    | inl e ↦ rw e (inl (refl, λ q. cc))
    | inr e ↦
        rw e
          (elim (Bool-cases
            (would_overflow (block_votes vs (block_hash_key vote.block_hash)).total_power val)) [
              | inl f ↦ rw f (inl (refl, λ q. cc))
              | inr f ↦ rw f (inr (val, j, refl, refl))
            ])
  ]

  check_validator-Outcome :
      (val : NamedValidator)
      → matches vs vote ≡ true
      → get_by_index vs.validator_set vote.validator_index ≡ some val
      → Outcome c vs vote (check_validator c vs vote val)
  unfolding check_validator check_existing
  check_validator-Outcome val m known =
      elim (Bool-cases (account_name_equal val.name vote.validator)) [
        | inr e ↦ rw e (inl (refl, λ q. cc))
        | inl named ↦
            rw named
              (elim (Bool-cases (
                verify_signature c val.public_key (vote_sign_bytes c vs.chain_id vote)
                  vote.signature)) [
                    | inr e ↦ rw e (inl (refl, λ q. cc))
                    | inl signed ↦
                        rw signed (elim (Option-cases (lookup vote.validator_index vs.votes)) [
                          | inl new ↦ rw new (
                              count_vote-Outcome val (record {
                                known = known;
                                named = named;
                                signed = signed;
                                matched = m;
                                new = new;
                              }))
                          | inr (old, e) ↦ rw e (elim (Bool-cases (votes_equal old vote)) [
                            | inl f ↦ rw f (inl (refl, λ q. cc))
                            | inr f ↦ rw f (inl (refl, λ q. cc))
                          ])
                        ])
                  ])
      ]

  pub add_vote_internal-Outcome :
      matches vs vote ≡ true → Outcome c vs vote (add_vote_internal c vs vote)
  unfolding add_vote_internal
  add_vote_internal-Outcome m =
      elim (Option-cases (get_by_index vs.validator_set vote.validator_index)) [
        | inl e ↦ rw (e, add_vote_internal) (inl (refl, λ q. cc))
        | inr (val, e) ↦ rw (e, add_vote_internal) (check_validator-Outcome val m e)
      ]

  -- The checks of AddVote before addVoteInternal refuse with an error and change nothing.
  pub add_vote-Outcome :
      (generation : ℕ) (now : ℤ) → Outcome c vs vote (add_vote c vs generation now vote)
  unfolding add_vote
  add_vote-Outcome generation now = elim (Bool-cases (is_stale vs generation)) [
    | inl e ↦ rw e (inl (refl, λ q. cc))
    | inr e ↦ rw e (elim (Bool-cases (matches vs vote)) [
      | inr e ↦ rw e (inl (refl, λ q. cc))
      | inl m ↦ rw m (elim (Bool-cases (ltb_ℤ (now +ℤ max_timestamp_drift) vote.timestamp)) [
        | inl e ↦ rw e (inl (refl, λ q. cc))
        | inr e ↦ rw e (elim (Bool-cases (ltb_ℤ vote.timestamp (now -ℤ max_timestamp_drift))) [
          | inl e ↦ rw e (inl (refl, λ q. cc))
          | inr e ↦ rw e (add_vote_internal-Outcome m)
        ])
      ])
    ])
  ]

  pub add_vote_for_replay-Outcome :
      (generation : ℕ) → Outcome c vs vote (add_vote_for_replay c vs generation vote)
  unfolding add_vote_for_replay
  add_vote_for_replay-Outcome generation = elim (Bool-cases (is_stale vs generation)) [
    | inl e ↦ rw e (inl (refl, λ q. cc))
    | inr e ↦ rw e (elim (Bool-cases (matches vs vote)) [
      | inr e ↦ rw e (inl (refl, λ q. cc))
      | inl m ↦ rw m (add_vote_internal-Outcome m)
    ])
  ]

  joined-IsGenuine :
      (val : NamedValidator)
      → Counted c vs
      → Joins c vs vote val
      → (g : IsGenuine c vs vote.validator_index vote) × (g.val ≡ val)
  joined-IsGenuine val w j = (
    record {
      val = val;
      index_lem = refl;
      known = sym (get_by_index_lem vs.validator_set vote.validator_index w.valid_set) ∙ j.known;
      named = j.named;
      signed = j.signed;
      matched = j.matched;
    },
    refl,
  )

  pub joined-Counted :
      (val : NamedValidator)
      → Counted c vs
      → Joins c vs vote val
      → Counted c (store_vote vs vote val)
  joined-Counted val w j =
      let (g, same) = joined-IsGenuine val w j in store_vote-Counted c vs vote val w j.new g same

  pub Outcome-Counted : (r : VoteSet × Result) → Counted c vs → Outcome c vs vote r → Counted c r.0
  Outcome-Counted r w (inl (e, _)) = rw e w
  Outcome-Counted r w (inr (val, j, e, _)) = rw e (joined-Counted val w j)

  -- AddVote keeps the counts of the vote set right, whatever vote it is given and whatever it answers.
  pub add_vote-Counted :
      (generation : ℕ) (now : ℤ) → Counted c vs → Counted c (add_vote c vs generation now vote).0
  add_vote-Counted generation now w = Outcome-Counted _ w (add_vote-Outcome generation now)

  -- If AddVote does not answer that the vote was added, the vote set is as it was.
  pub add_vote_unchanged :
      (generation : ℕ) (now : ℤ)
      → (add_vote c vs generation now vote).1 ≢ ok true
      → (add_vote c vs generation now vote).0 ≡ vs
  add_vote_unchanged generation now h = elim (add_vote-Outcome generation now) [
    | inl (e, _) ↦ e
    | inr (val, j, _, e) ↦ absurd (h e)
  ]
