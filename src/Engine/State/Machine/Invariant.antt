-- ===== src/Engine/State/Machine/Invariant.antt =====
-- The invariant of ConsensusState: the votes are those of its height, the locked block has a majority of
-- prevotes, the proposed block is the proposal's, and every block that was applied has a commit that VerifyCommit accepts.
use leaderberry.Prelude.{
  ◌≡◌, refl, sym, ◌∙◌, ap, subst, true, Option, none, some, List, ◌∷◌, ℤ, arith, All, Bytes, inl,
  inr, Option-cases, lookup, int_key,
}
use leaderberry.Types.Hash.{Hash, copy_hash_lem, hash_equal, hash_equal_sound}
use leaderberry.Types.Vote.{Vote, Commit}
use leaderberry.Types.Validator.{ValidatorSet}
use leaderberry.Types.Validator.Member.{WellFormed}
use leaderberry.Types.Commit.{verify_commit}
use leaderberry.PrivVal.FilePv.{Proposal, block_hash}
use leaderberry.Engine.VoteSet.{
  VoteSet, block_votes, block_hash_key, two_thirds_majority, make_commit,
}
use leaderberry.Engine.VoteSet.Committing.{make_commit-verify_commit, entry_hash}
use leaderberry.Engine.HeightVoteSet.{HeightVoteSet, add_vote, reset}
use leaderberry.Engine.HeightVoteSet.Rounds.{IsSound, add_vote-IsSound, reset-IsSound}
use leaderberry.Engine.HeightVoteSet.Keeping.{
  HasPrevoteMajority, add_vote-SameScope, add_vote-keeps-HasPrevoteMajority,
}
use leaderberry.Engine.State.Updates.Powers.{IsTypedUpdate}
use leaderberry.Engine.State.{
  ValidatorUpdate, Action, schedules, sends_proposal, sends_vote, writes, applies, Env, State,
}

module _ {Block World : Type 0} (e : Env Block World) where
  -- ApplyBlock returns powers that are int64 values.
  abbrev pub HasTypedUpdates : Type 0
  HasTypedUpdates =
      (w w' : World) (b : Block) (c : Commit) (us : List ValidatorUpdate)
      → e.apply_block w b c ≡ (w', some us)
      → All IsTypedUpdate us

  -- A block is applied under a commit for it, of the validators and the height that it is applied at.
  abbrev pub IsCertified : Action Block → Type 0
  IsCertified (schedules ti) = Unit {0}
  IsCertified (sends_proposal p) = Unit {0}
  IsCertified (sends_vote v) = Unit {0}
  IsCertified (writes entry) = Unit {0}
  IsCertified (applies height vals b c) =
      WellFormed vals
      × (verify_commit e.signing.crypto e.chain_id (some vals) (block_hash e.signing b) height
            (some c)
          ≡ none)

  abbrev pub key_of : Block → Bytes
  key_of b = block_hash_key (some (block_hash e.signing b))

  -- The block kept beside the proposal is the proposal's.
  abbrev pub IsProposed : Option (Proposal Block) → Option Block → Type 0
  IsProposed none none = Unit
  IsProposed none (some b) = ⊥
  IsProposed (some p) none = ⊥
  IsProposed (some p) (some b) = p.block ≡ b

  -- The fields that the invariant speaks of; the others may change.
  pub record Holds (votes : HeightVoteSet) (height : ℤ) (vals : ValidatorSet) (locked_round : ℤ)
      (locked_block : Option Block) (proposal : Option (Proposal Block))
      (proposal_block : Option Block) (actions : List (Action Block)) : Type 0 where
    pub sound : IsSound e.signing.crypto votes
    pub same_chain : votes.chain_id ≡ e.chain_id
    pub same_height : votes.height ≡ height
    pub same_set : votes.validator_set ≡ vals
    pub justified :
        (b : Block) → locked_block ≡ some b → HasPrevoteMajority votes locked_round (key_of b)
    pub proposed : IsProposed proposal proposal_block
    pub certified : All IsCertified actions

  abbrev pub Inv : State Block World → Type 0
  Inv s =
      Holds s.votes s.height s.validator_set s.locked_round s.locked_block s.proposal
        s.proposal_block s.actions

  module _ {votes : HeightVoteSet} {height : ℤ} {vals : ValidatorSet} {locked_round : ℤ}
      {locked_block : Option Block} {proposal : Option (Proposal Block)}
      {proposal_block : Option Block} {actions : List (Action Block)}
      (w : Holds votes height vals locked_round locked_block proposal proposal_block actions) where
    pub Holds-act :
        (a : Action Block)
        → IsCertified a
        → Holds votes height vals locked_round locked_block proposal proposal_block (a ∷ actions)
    Holds-act a h = record {
      sound = w.sound;
      same_chain = w.same_chain;
      same_height = w.same_height;
      same_set = w.same_set;
      justified = w.justified;
      proposed = w.proposed;
      certified = (h, w.certified);
    }

    pub Holds-propose :
        (new : Option (Proposal Block)) (block : Option Block)
        → IsProposed new block
        → Holds votes height vals locked_round locked_block new block actions
    Holds-propose new block h = record {
      sound = w.sound;
      same_chain = w.same_chain;
      same_height = w.same_height;
      same_set = w.same_set;
      justified = w.justified;
      proposed = h;
      certified = w.certified;
    }

    pub Holds-unlock :
        (round : ℤ) → Holds votes height vals round none proposal proposal_block actions
    Holds-unlock round = record {
      sound = w.sound;
      same_chain = w.same_chain;
      same_height = w.same_height;
      same_set = w.same_set;
      justified = λ b h. cc;
      proposed = w.proposed;
      certified = w.certified;
    }

    pub Holds-lock :
        (round : ℤ) (b : Block)
        → HasPrevoteMajority votes round (key_of b)
        → Holds votes height vals round (some b) proposal proposal_block actions
    Holds-lock round b m = record {
      sound = w.sound;
      same_chain = w.same_chain;
      same_height = w.same_height;
      same_set = w.same_set;
      justified = λ b' h.
          subst
            (λ (o : Option Block). elim o [
              | none ↦ Unit {0}
              | some x ↦ HasPrevoteMajority votes round (key_of x)
            ])
            h m;
      proposed = w.proposed;
      certified = w.certified;
    }

    pub Holds-add_vote :
        (now : ℤ) (vote : Vote)
        → Holds
            (add_vote e.signing.crypto votes now vote).0
            height
            vals
            locked_round
            locked_block
            proposal
            proposal_block
            actions
    Holds-add_vote now vote =
        let (chain, at, set) = add_vote-SameScope e.signing.crypto votes now vote in
        record {
          sound = add_vote-IsSound e.signing.crypto votes w.sound now vote;
          same_chain = chain ∙ w.same_chain;
          same_height = at ∙ w.same_height;
          same_set = set ∙ w.same_set;
          justified = λ b h.
              add_vote-keeps-HasPrevoteMajority e.signing.crypto votes now vote locked_round
                (key_of b) (w.justified b h);
          proposed = w.proposed;
          certified = w.certified;
        }

    pub Holds-reset :
        (next_height round : ℤ) (next : ValidatorSet)
        → WellFormed next
        → Holds (reset votes next_height next) next_height next round none none none actions
    Holds-reset next_height round next ok = record {
      sound = reset-IsSound e.signing.crypto votes next_height next ok;
      same_chain = unfold reset in w.same_chain;
      same_height = unfold reset in refl;
      same_set = unfold reset in refl;
      justified = λ b h. cc;
      proposed = tt;
      certified = w.certified;
    }

    -- MakeCommit of a vote set of the height.
    pub Holds-verify_commit :
        (round : ℤ) (vs : VoteSet) (c : Commit)
        → lookup round votes.precommits ≡ some vs
        → make_commit vs ≡ some c
        → verify_commit e.signing.crypto e.chain_id (some vals) c.block_hash height (some c) ≡ none
    Holds-verify_commit round vs c found made =
        let ours = w.sound.precommits_lem round vs found in
        rw
          (
            sym w.same_chain,
            sym w.same_height,
            sym w.same_set,
            sym ours.same_chain,
            sym ours.same_height,
            sym ours.same_set,
          )
          (make_commit-verify_commit e.signing.crypto vs c ours.counted made)

    -- The block that TwoThirdsMajority of the prevotes names has their majority.
    pub Holds-majority :
        (round : ℤ) (vs : VoteSet) (b : Block) (hash : Hash)
        → lookup round votes.prevotes ≡ some vs
        → two_thirds_majority vs ≡ (some hash, true)
        → hash_equal (block_hash e.signing b) hash ≡ true
        → HasPrevoteMajority votes round (key_of b)
    unfolding two_thirds_majority
    Holds-majority round vs b hash found two same = elim (Option-cases vs.maj23) [
      | inl n ↦ absurd (ground (arith, two, n))
      | inr (key, m) ↦ (
        vs,
        found,
        m
            ∙ ap some (
                sym (
                  entry_hash e.signing.crypto vs key (w.sound.prevotes_lem round vs found).counted
                    m)
                ∙ ap block_hash_key (
                    named key m
                    ∙ ap some (sym (hash_equal_sound (block_hash e.signing b) hash same)))),
      )
    ]
      where
        named : (key : Bytes) → vs.maj23 ≡ some key → (block_votes vs key).block_hash ≡ some hash
        named key m = ground (arith, m, two, copy_hash_lem (block_votes vs key).block_hash)
