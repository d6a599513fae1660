-- ===== src/Engine/HeightVoteSet/Rounds.antt =====
-- The vote sets that a height vote set holds are counted and current; those it gave out before a
-- Reset take no more votes.
use leaderberry.Prelude.{
  ◌≡◌, refl, subst, true, Option, some, List, [], ℤ, eqb_ℤ, eqb_ℤ_iff, arith, Bytes, lookup, insert,
  lookup-insert, int_key, inl, inr, Bool-cases, Option-cases,
}
use leaderberry.Types.Hash.{Hash}
use leaderberry.Types.Vote.{Vote, Crypto, vote_type_prevote, vote_type_precommit}
use leaderberry.Types.Validator.{ValidatorSet, NamedValidator}
use leaderberry.Types.Validator.Member.{WellFormed}
use leaderberry.Engine.VoteSet
use leaderberry.Engine.VoteSet.{
  VoteSet, Result, ok, err, stale_vote_set, is_stale, store_vote, new_vote_set,
}
use leaderberry.Engine.VoteSet.Counted.{Counted, Counted-relabel}
use leaderberry.Engine.VoteSet.Adding.{new_vote_set-Counted}
use leaderberry.Engine.VoteSet.Outcome.{
  Outcome, joined-Counted, add_vote-Outcome, add_vote_for_replay-Outcome,
}
use leaderberry.Engine.HeightVoteSet.{
  HeightVoteSet, new_height_vote_set, new_vote_set_with_parent, vote_set_at, put_prevotes,
  put_precommits, dispatch_vote, set_peer_maj23, reset, add_vote, add_vote_for_replay,
}

-- A vote set that belongs to a height vote set, at a round and a type.
pub record IsOurs (c : Crypto) (hvs : HeightVoteSet) (round vote_type : ℤ) (vs : VoteSet)
    : Type 0 where
  pub counted : Counted c vs
  pub same_chain : vs.chain_id ≡ hvs.chain_id
  pub same_height : vs.height ≡ hvs.height
  pub same_round : vs.round ≡ round
  pub same_type : vs.vote_type ≡ vote_type
  pub same_set : vs.validator_set ≡ hvs.validator_set
  pub linked : vs.has_parent ≡ true
  pub current : vs.my_generation ≡ hvs.generation

pub record IsSound (c : Crypto) (hvs : HeightVoteSet) : Type 0 where
  pub valid_set : WellFormed hvs.validator_set
  pub prevotes_lem :
      (round : ℤ) (vs : VoteSet)
      → lookup round hvs.prevotes ≡ some vs
      → IsOurs c hvs round vote_type_prevote vs
  pub precommits_lem :
      (round : ℤ) (vs : VoteSet)
      → lookup round hvs.precommits ≡ some vs
      → IsOurs c hvs round vote_type_precommit vs

pub new_height_vote_set-IsSound :
    (c : Crypto) (chain_id : Bytes) (height : ℤ) (vals : ValidatorSet)
    → WellFormed vals
    → IsSound c (new_height_vote_set chain_id height vals)
unfolding new_height_vote_set lookup
new_height_vote_set-IsSound c chain_id height vals w = record {
  valid_set = w;
  prevotes_lem = λ r vs e. cc;
  precommits_lem = λ r vs e. cc;
}

-- After Reset to a well-formed validator set no vote of the old height is left.
pub reset-IsSound :
    (c : Crypto) (hvs : HeightVoteSet) (height : ℤ) (vals : ValidatorSet)
    → WellFormed vals
    → IsSound c (reset hvs height vals)
unfolding reset lookup
reset-IsSound c hvs height vals w = record {
  valid_set = w;
  prevotes_lem = λ r vs e. cc;
  precommits_lem = λ r vs e. cc;
}

module _ (c : Crypto) (hvs : HeightVoteSet) (w : IsSound c hvs) where
  fresh-IsOurs :
      (round vote_type : ℤ)
      → IsOurs c hvs round vote_type (new_vote_set_with_parent hvs round vote_type)
  unfolding new_vote_set_with_parent
  fresh-IsOurs round vote_type = record {
    counted = relabelled;
    same_chain = unfold new_vote_set in refl;
    same_height = unfold new_vote_set in refl;
    same_round = unfold new_vote_set in refl;
    same_type = unfold new_vote_set in refl;
    same_set = unfold new_vote_set in refl;
    linked = refl;
    current = refl;
  }
    where
      made : Counted c (new_vote_set hvs.chain_id hvs.height round vote_type hvs.validator_set)
      made =
          new_vote_set-Counted c hvs.chain_id hvs.height round vote_type hvs.validator_set
            w.valid_set

      relabelled : Counted c (new_vote_set_with_parent hvs round vote_type)
      relabelled = unfold new_vote_set in Counted-relabel c _ [] true hvs.generation made

  vote_set_at-IsOurs :
      (sets : List (ℤ × VoteSet)) (round vote_type : ℤ)
      → ((vs : VoteSet) → lookup round sets ≡ some vs → IsOurs c hvs round vote_type vs)
      → IsOurs c hvs round vote_type (vote_set_at hvs sets round vote_type)
  unfolding vote_set_at
  vote_set_at-IsOurs sets round vote_type h = elim (Option-cases (lookup round sets)) [
    | inl e ↦ rw (e, vote_set_at) (fresh-IsOurs round vote_type)
    | inr (vs, e) ↦ rw (e, vote_set_at) (h vs e)
  ]

  stored-IsOurs :
      (vs : VoteSet) (vote : Vote) (val : NamedValidator) (round vote_type : ℤ)
      → IsOurs c hvs round vote_type vs
      → Counted c (store_vote vs vote val)
      → IsOurs c hvs round vote_type (store_vote vs vote val)
  unfolding store_vote
  stored-IsOurs vs vote val round vote_type o k = record {
    counted = k;
    same_chain = o.same_chain;
    same_height = o.same_height;
    same_round = o.same_round;
    same_type = o.same_type;
    same_set = o.same_set;
    linked = o.linked;
    current = o.current;
  }

  Outcome-IsOurs :
      (vs : VoteSet) (vote : Vote) (r : VoteSet × Result) (round vote_type : ℤ)
      → IsOurs c hvs round vote_type vs
      → Outcome c vs vote r
      → IsOurs c hvs round vote_type r.0
  Outcome-IsOurs vs vote r round vote_type o (inl (e, _)) = rw e o
  Outcome-IsOurs vs vote r round vote_type o (inr (val, j, e, _)) =
      rw e (stored-IsOurs vs vote val round vote_type o (joined-Counted c vs vote val o.counted j))

  IsOurs-sets :
      (votes_a votes_b : List (ℤ × VoteSet)) (k t : ℤ) (vs : VoteSet)
      → IsOurs c hvs k t vs
      → IsOurs c (record hvs { prevotes = votes_a; precommits = votes_b }) k t vs
  IsOurs-sets votes_a votes_b k t vs o = record {
    counted = o.counted;
    same_chain = o.same_chain;
    same_height = o.same_height;
    same_round = o.same_round;
    same_type = o.same_type;
    same_set = o.same_set;
    linked = o.linked;
    current = o.current;
  }

  inserted :
      (sets : List (ℤ × VoteSet)) (round t : ℤ) (new : VoteSet)
      → IsOurs c hvs round t new
      → ((k : ℤ) (vs : VoteSet) → lookup k sets ≡ some vs → IsOurs c hvs k t vs)
      → (k : ℤ) (vs : VoteSet) → lookup k (insert round new sets) ≡ some vs
      → IsOurs c hvs k t vs
  inserted sets round t new o h k vs e = elim (Bool-cases (eqb_ℤ round k)) [
    | inl q ↦
        subst (λ (j : ℤ). IsOurs c hvs j t vs) ((eqb_ℤ_iff round k).0 q)
          (subst (λ (x : VoteSet). IsOurs c hvs round t x)
            (ground (arith, e, q, lookup-insert round k new sets)) o)
    | inr q ↦ h k vs (ground (arith, e, q, lookup-insert round k new sets))
  ]

  put_prevotes-IsSound :
      (round : ℤ) (r : VoteSet × Result)
      → IsOurs c hvs round vote_type_prevote r.0
      → IsSound c (put_prevotes hvs round r).0
  unfolding put_prevotes
  put_prevotes-IsSound round r o = record {
    valid_set = w.valid_set;
    prevotes_lem = λ k vs e.
        IsOurs-sets _ _ k _ vs (inserted hvs.prevotes round _ r.0 o w.prevotes_lem k vs e);
    precommits_lem = λ k vs e. IsOurs-sets _ _ k _ vs (w.precommits_lem k vs e);
  }

  put_precommits-IsSound :
      (round : ℤ) (r : VoteSet × Result)
      → IsOurs c hvs round vote_type_precommit r.0
      → IsSound c (put_precommits hvs round r).0
  unfolding put_precommits
  put_precommits-IsSound round r o = record {
    valid_set = w.valid_set;
    prevotes_lem = λ k vs e. IsOurs-sets _ _ k _ vs (w.prevotes_lem k vs e);
    precommits_lem = λ k vs e.
        IsOurs-sets _ _ k _ vs (inserted hvs.precommits round _ r.0 o w.precommits_lem k vs e);
  }

  dispatch_vote-IsSound :
      (add : VoteSet → VoteSet × Result) (vote : Vote)
      → ((vs : VoteSet) → Outcome c vs vote (add vs))
      → IsSound c (dispatch_vote add hvs vote).0
  unfolding dispatch_vote
  dispatch_vote-IsSound add vote h = elim (Bool-cases (eqb_ℤ vote.height hvs.height)) [
    | inr e ↦ rw e w
    | inl e ↦ rw e (elim (Bool-cases (eqb_ℤ vote.type' vote_type_prevote)) [
      | inl e ↦ rw e (
          put_prevotes-IsSound vote.round _ (
            Outcome-IsOurs _ vote _ vote.round vote_type_prevote
              (vote_set_at-IsOurs hvs.prevotes vote.round vote_type_prevote
                (w.prevotes_lem vote.round))
              (h _)))
      | inr e ↦ rw e (elim (Bool-cases (eqb_ℤ vote.type' vote_type_precommit)) [
        | inr e ↦ rw e w
        | inl e ↦ rw e (
            put_precommits-IsSound vote.round _ (
              Outcome-IsOurs _ vote _ vote.round vote_type_precommit
                (vote_set_at-IsOurs hvs.precommits vote.round vote_type_precommit
                  (w.precommits_lem vote.round))
                (h _)))
      ])
    ])
  ]

  claimed-IsOurs :
      (vs : VoteSet) (peer_id : Bytes) (hash : Option Hash) (round t : ℤ)
      → IsOurs c hvs round t vs
      → IsOurs c hvs round t (VoteSet.set_peer_maj23 vs peer_id hash)
  claimed-IsOurs vs peer_id hash round t o =
      unfold VoteSet.set_peer_maj23 in
      record {
        counted = Counted-relabel c vs _ vs.has_parent vs.my_generation o.counted;
        same_chain = o.same_chain;
        same_height = o.same_height;
        same_round = o.same_round;
        same_type = o.same_type;
        same_set = o.same_set;
        linked = o.linked;
        current = o.current;
      }

  pub set_peer_maj23-IsSound :
      (peer_id : Bytes) (round vote_type : ℤ) (hash : Option Hash)
      → IsSound c (set_peer_maj23 hvs peer_id round vote_type hash)
  unfolding set_peer_maj23 put_prevotes put_precommits
  set_peer_maj23-IsSound peer_id round vote_type hash =
      elim (Bool-cases (eqb_ℤ vote_type vote_type_prevote)) [
        | inl e ↦ rw e (
            put_prevotes-IsSound round (_, ok true)
              (claimed-IsOurs _ peer_id hash round _
                (vote_set_at-IsOurs hvs.prevotes round vote_type_prevote (w.prevotes_lem round))))
        | inr e ↦ rw e (
            put_precommits-IsSound round (_, ok true)
              (claimed-IsOurs _ peer_id hash round _ (
                vote_set_at-IsOurs hvs.precommits round vote_type_precommit
                  (w.precommits_lem round))))
      ]

  pub add_vote-IsSound : (now : ℤ) (vote : Vote) → IsSound c (add_vote c hvs now vote).0
  unfolding add_vote
  add_vote-IsSound now vote =
      dispatch_vote-IsSound _ vote (λ vs. add_vote-Outcome c vs vote hvs.generation now)

  pub add_vote_for_replay-IsSound : (vote : Vote) → IsSound c (add_vote_for_replay c hvs vote).0
  unfolding add_vote_for_replay
  add_vote_for_replay-IsSound vote =
      dispatch_vote-IsSound _ vote (λ vs. add_vote_for_replay-Outcome c vs vote hvs.generation)
