-- ===== src/Evidence/CheckVote/Tracking.antt =====
-- CheckVote finds every validator that signs two votes for one height, round and type.
use leaderberry.Prelude.{
  ℕ, zero, suc, ◌/◌, ◌≡◌, refl, ◌∙◌, subst, true, false, Option, none, some, List, [], ◌∷◌, ℤ,
  eqb_ℤ, arith, leb, ◌==◌, length, Bytes, bytes_eq, bytes_eq_sound, lookup, insert, bytes_key, All,
  All-keep_if, Bool-cases, Option-cases, inl, inr,
}
use leaderberry.Types.Account.{account_name_string}
use leaderberry.Types.Vote.{Vote, copy_vote_lem, verify_vote_signature}
use leaderberry.Types.Validator.{ValidatorSet, NamedValidator, get_by_name}
use leaderberry.Evidence.Pool.{Pool, Outside, update, prune_expired, max_seen_votes}
use leaderberry.Evidence.CheckVote.{
  vote_key, oldest_height, remove_first, remove_oldest, prune_oldest_votes, track, track_new,
  check_known, check_signed, check_vote,
}

-- The validator, height, round and type of a vote.
abbrev pub SameSlot : Vote → Vote → Type 0
SameSlot a b =
    (account_name_string a.validator ≡ account_name_string b.validator)
    × (a.height ≡ b.height)
    × (a.round ≡ b.round)
    × (a.type' ≡ b.type')

-- What is asked of the format "%s/%d/%d/%d": different fields give different keys.
abbrev pub IsInjectiveFormat : Outside → Type 0
IsInjectiveFormat o =
    (n m : Bytes) (h h' r r' t t' : ℤ)
    → o.format_vote_key n h r t ≡ o.format_vote_key m h' r' t'
    → (n ≡ m) × (h ≡ h') × (r ≡ r') × (t ≡ t')

module _ (o : Outside) (chain_id : Bytes) (vals : ValidatorSet) where
  -- The vote is signed by the validator of the set that it names.
  abbrev pub IsSigned : Vote → Type 0
  IsSigned v =
      (val : NamedValidator) × (get_by_name vals (account_name_string v.validator) ≡ some val)
      × (verify_vote_signature o.crypto chain_id v val.public_key ≡ true)

  abbrev pub IsTracked : Bytes × Vote → Type 0
  IsTracked (key, v) = (vote_key o v ≡ key) × IsSigned v

  -- Every vote seen stands under its own key and is signed.
  abbrev pub Tracked : Pool → Type 0
  Tracked p = All IsTracked p.seen_votes

  pub lookup-IsTracked :
      (m : List (Bytes × Vote)) (key : Bytes) (v : Vote)
      → All IsTracked m
      → lookup key m ≡ some v
      → IsTracked (key, v)
  unfolding lookup
  lookup-IsTracked [] key v h e = cc
  lookup-IsTracked ((k, x) ∷ m) key v h e = elim (Bool-cases (bytes_eq k key)) [
    | inl q ↦
        let same : x ≡ v = ground (arith, e, q) in
        subst (λ (y : Vote). IsTracked (key, y)) same (h.0.0 ∙ bytes_eq_sound k key q, h.0.1)
    | inr q ↦ lookup-IsTracked m key v h.1 (ground (arith, e, q))
  ]

  insert-IsTracked :
      (m : List (Bytes × Vote)) (v : Vote)
      → All IsTracked m
      → IsSigned v
      → All IsTracked (insert (vote_key o v) v m)
  unfolding insert
  insert-IsTracked [] v h g = ((refl, g), tt)
  insert-IsTracked ((k, x) ∷ m) v h g = elim (Bool-cases (bytes_eq k (vote_key o v))) [
    | inl q ↦ rw q ((refl, g), h.1)
    | inr q ↦ rw q (h.0, insert-IsTracked m v h.1 g)
  ]

  remove_first-IsTracked :
      (height : ℤ) (m : List (Bytes × Vote))
      → All IsTracked m
      → All IsTracked (remove_first height m)
  unfolding remove_first
  remove_first-IsTracked height [] h = tt
  remove_first-IsTracked height ((k, x) ∷ m) h = elim (Bool-cases (eqb_ℤ x.height height)) [
    | inl q ↦ rw q h.1
    | inr q ↦ rw q (h.0, remove_first-IsTracked height m h.1)
  ]

  remove_oldest-IsTracked :
      (n : ℕ) (protected : ℤ) (m : List (Bytes × Vote))
      → All IsTracked m
      → All IsTracked (remove_oldest n protected m)
  unfolding remove_oldest
  remove_oldest-IsTracked zero protected m h = h
  remove_oldest-IsTracked (suc n) protected m h = elim (Option-cases (oldest_height protected m)) [
    | inl e ↦ rw (e, remove_oldest) h
    | inr (height, e) ↦
        rw (e, remove_oldest)
          (remove_oldest-IsTracked n protected (remove_first height m)
            (remove_first-IsTracked height m h))
  ]

  track-Tracked : (p : Pool) (v : Vote) → Tracked p → IsSigned v → Tracked (track o p v).0
  unfolding track
  track-Tracked p v h g = rw (copy_vote_lem v) (insert-IsTracked p.seen_votes v h g)

  prune-Tracked : (p : Pool) (n : ℕ) → Tracked p → Tracked (prune_oldest_votes p n)
  unfolding prune_oldest_votes
  prune-Tracked p n h = remove_oldest-IsTracked n _ p.seen_votes h

  track_new-Tracked : (p : Pool) (v : Vote) → Tracked p → IsSigned v → Tracked (track_new o p v).0
  unfolding track_new
  track_new-Tracked p v h g = elim (Bool-cases (leb max_seen_votes (length p.seen_votes))) [
    | inr e ↦ rw e (track-Tracked p v h g)
    | inl e ↦
        rw e
          (elim (Bool-cases
            (leb max_seen_votes (length (prune_oldest_votes p (max_seen_votes / 10)).seen_votes))) [
              | inl f ↦ rw f (prune-Tracked p (max_seen_votes / 10) h)
              | inr f ↦ rw f (
                  track-Tracked (prune_oldest_votes p (max_seen_votes / 10)) v
                    (prune-Tracked p (max_seen_votes / 10) h) g)
            ])
  ]

  check_known-Tracked :
      (p : Pool) (now : ℤ) (val : NamedValidator) (vote : Vote) (known : Option Vote)
      → Tracked p
      → IsSigned vote
      → Tracked (check_known o p now chain_id vals val vote known).0
  unfolding check_known
  check_known-Tracked p now val vote none h g = track_new-Tracked p vote h g
  check_known-Tracked p now val vote (some x) h g = h

  check_signed-Tracked :
      (p : Pool) (now : ℤ) (val : NamedValidator) (vote : Vote)
      → (length chain_id == 0) ≡ false
      → Tracked p
      → get_by_name vals (account_name_string vote.validator) ≡ some val
      → Tracked (check_signed o p now chain_id vals val vote).0
  unfolding check_signed
  check_signed-Tracked p now val vote named h known =
      elim (Bool-cases (verify_vote_signature o.crypto chain_id vote val.public_key)) [
        | inl v ↦ rw (named, v) (check_known-Tracked p now val vote _ h (val, known, v))
        | inr v ↦ rw (named, v) h
      ]

  pub check_vote-Tracked :
      (p : Pool) (now : ℤ) (vote : Vote)
      → (length chain_id == 0) ≡ false
      → Tracked p
      → Tracked (check_vote o p now (some vote) (some vals) chain_id).0
  unfolding check_vote
  check_vote-Tracked p now vote named h =
      elim (Option-cases (get_by_name vals (account_name_string vote.validator))) [
        | inl e ↦ rw (e, check_vote) h
        | inr (val, e) ↦ rw (e, check_vote) (check_signed-Tracked p now val vote named h e)
      ]

  pub update-Tracked :
      (p : Pool) (height block_time : ℤ) → Tracked p → Tracked (update o p height block_time)
  unfolding update prune_expired
  update-Tracked p height block_time h = All-keep_if IsTracked _ p.seen_votes h
