-- ===== src/Engine/State/Machine/OwnVotes.antt =====
-- The methods of engine/state.go that lock, and sign and count the node's own votes, keep the invariant.
use leaderberry.Prelude.{◌≡◌, refl, true, false, not, Bool, Option, none, some, ℤ, eqb_ℤ}
use leaderberry.Types.Hash.{Hash, hash_equal, is_hash_empty}
use leaderberry.Types.Vote.{Vote, vote_type_prevote, vote_type_precommit}
use leaderberry.Types.Validator.{get_by_index}
use leaderberry.PrivVal.FilePv.{Proposal, Answer, block_hash, signed, refused}
use leaderberry.PrivVal.FilePv
use leaderberry.Engine.VoteSet.{VoteSet, Result, ok, err}
use leaderberry.Engine.VoteSet
use leaderberry.Engine.HeightVoteSet.{HeightVoteSet, prevotes_of}
use leaderberry.Engine.State.{
  RoundStep, prevote, precommit, Env, State, Call, sign_and_send, handle_prevote, handle_precommit,
  Outcome,
}
use leaderberry.Engine.State.Voting.{
  may_enter, can_unlock, decide_prevote, enter_prevote_body, enter_wait_body, lock_on, lock_or_nil,
  decide_precommit, precommit_on, enter_precommit_body, find_validator, after_own_vote, own_added,
  add_own_vote, vote_signed, sign_as, sign_and_send_body,
}
use leaderberry.Engine.State.Machine.Outcomes.{Every, Every-bind, if-both, Bool-both, Option-both}
use leaderberry.Engine.State.Machine.Invariant.{
  Inv, Holds-act, Holds-unlock, Holds-lock, Holds-add_vote, Holds-majority,
}
use leaderberry.Engine.State.Machine.Proposals.{Keeps, write_log-Inv}

module _ {Block World : Type 0} (e : Env Block World) where
  decide_prevote-Inv :
      (s : State Block World) (locked proposed : Option Block)
      → Inv e s
      → Inv e (decide_prevote e s locked proposed).0
  unfolding decide_prevote
  decide_prevote-Inv s none none w = w
  decide_prevote-Inv s none (some p) w = w
  decide_prevote-Inv s (some l) none w = w
  decide_prevote-Inv s (some l) (some p) w =
      let good = λ (r : State Block World × Option Hash). Inv e r.0 in
      if-both good (hash_equal (block_hash e.signing p) (block_hash e.signing l)) _ _ (λ q. w)
        λ q. if-both good (can_unlock e s s.proposal) _ _ (λ q. Holds-unlock e w _) (λ q. w)

  pub enter_wait-Inv :
      (step : RoundStep) (height round : ℤ) (s : State Block World)
      → Inv e s
      → Every (Inv e) (enter_wait_body e step height round s)
  unfolding enter_wait_body
  enter_wait-Inv step height round s w =
      if-both (Every (Inv e)) (not (may_enter e height round step s)) _ _ (λ q. w)
        (λ q. Holds-act e w _ tt)

  module _ (go : Call → State Block World → Outcome (State Block World)) (h : Keeps e go) where
    pub enter_prevote-Inv :
        (height round : ℤ) (s : State Block World)
        → Inv e s
        → Every (Inv e) (enter_prevote_body e go height round s)
    unfolding enter_prevote_body
    enter_prevote-Inv height round s w =
        if-both (Every (Inv e)) (not (may_enter e height round prevote s)) _ _ (λ q. w)
          (λ q. h (sign_and_send vote_type_prevote _) _ (decide_prevote-Inv _ _ _ w) tt)

    lock_or_nil-Inv :
        (round : ℤ) (vs : VoteSet) (hash : Hash) (b : Option Block) (s : State Block World)
        → Inv e s
        → prevotes_of s.votes round ≡ some vs
        → VoteSet.two_thirds_majority vs ≡ (some hash, true)
        → Every (Inv e) (lock_or_nil e go round hash b s)
    unfolding lock_or_nil lock_on prevotes_of
    lock_or_nil-Inv round vs hash none s w found two = h (sign_and_send _ none) s w tt
    lock_or_nil-Inv round vs hash (some b) s w found two =
        if-both (Every (Inv e)) (hash_equal (block_hash e.signing b) hash) _ _
          (λ q.
            Every-bind (Inv e) (Inv e) _ _
              (write_log-Inv e _ _
                (Holds-lock e w round b (Holds-majority e w round vs b hash found two q)))
              (λ t v. h (sign_and_send _ (some hash)) t v tt))
          (λ q. h (sign_and_send _ none) s w tt)

    decide_precommit-Inv :
        (round : ℤ) (vs : VoteSet) (r : Option Hash × Bool) (s : State Block World)
        → Inv e s
        → prevotes_of s.votes round ≡ some vs
        → VoteSet.two_thirds_majority vs ≡ r
        → Every (Inv e) (decide_precommit e go round r s)
    unfolding decide_precommit
    decide_precommit-Inv round vs (hash, false) s w found two = h (sign_and_send _ none) s w tt
    decide_precommit-Inv round vs (none, true) s w found two =
        h (sign_and_send _ none) _ (Holds-unlock e w _) tt
    decide_precommit-Inv round vs (some hash, true) s w found two =
        if-both (Every (Inv e)) (is_hash_empty (some hash)) _ _
          (λ q. h (sign_and_send _ none) _ (Holds-unlock e w _) tt)
          (λ q. lock_or_nil-Inv round vs hash s.proposal_block s w found two)

    precommit_on-Inv :
        (round : ℤ) (o : Option VoteSet) (s : State Block World)
        → Inv e s
        → prevotes_of s.votes round ≡ o
        → Every (Inv e) (precommit_on e go round o s)
    unfolding precommit_on
    precommit_on-Inv round none s w found = h (sign_and_send _ none) s w tt
    precommit_on-Inv round (some vs) s w found = decide_precommit-Inv round vs _ s w found refl

    pub enter_precommit-Inv :
        (height round : ℤ) (s : State Block World)
        → Inv e s
        → Every (Inv e) (enter_precommit_body e go height round s)
    unfolding enter_precommit_body
    enter_precommit-Inv height round s w =
        if-both (Every (Inv e)) (not (may_enter e height round precommit s)) _ _ (λ q. w)
          (λ q. precommit_on-Inv round _ _ w refl)

    after_own_vote-Inv :
        (vote : Vote) (s : State Block World) → Inv e s → Every (Inv e) (after_own_vote e go vote s)
    unfolding after_own_vote
    after_own_vote-Inv vote s w =
        Every-bind (Inv e) (Inv e) _ _
          (Bool-both (Every (Inv e)) (eqb_ℤ vote.type' vote_type_prevote) _ _
            (λ q. h (handle_prevote vote) s w tt)
            (λ q.
              Bool-both (Every (Inv e)) (eqb_ℤ vote.type' vote_type_precommit) _ _
                (λ q. h (handle_precommit vote) s w tt) (λ q. w)))
          (λ t v. Holds-act e v _ tt)

    own_added-Inv :
        (vote : Vote) (s : State Block World) (r : HeightVoteSet × Result)
        → Inv e (record s { votes = r.0 })
        → Every (Inv e) (own_added e go vote s r)
    unfolding own_added
    own_added-Inv vote s (votes, ok true) w = after_own_vote-Inv vote _ w
    own_added-Inv vote s (votes, ok false) w = tt
    own_added-Inv vote s (votes, err x) w = tt

    add_own_vote-Inv :
        (vote : Vote) (s : State Block World) → Inv e s → Every (Inv e) (add_own_vote e go vote s)
    unfolding add_own_vote
    add_own_vote-Inv vote s w =
        Every-bind (Inv e) (Inv e) _ _ (write_log-Inv e _ s w)
          λ t v. own_added-Inv vote _ _ (Holds-add_vote e v _ vote)

    vote_signed-Inv :
        (vote : Vote) (s : State Block World) (r : World × Answer)
        → Inv e s
        → Every (Inv e) (vote_signed e go vote s r)
    unfolding vote_signed
    vote_signed-Inv vote s (world, signed sig) w = add_own_vote-Inv _ _ w
    vote_signed-Inv vote s (world, refused x) w = w
    vote_signed-Inv vote s (world, FilePv.panicked) w = tt

    pub sign_and_send-Inv :
        (vote_type : ℤ) (hash : Option Hash) (s : State Block World)
        → Inv e s
        → Every (Inv e) (sign_and_send_body e go vote_type hash s)
    unfolding sign_and_send_body sign_as
    sign_and_send-Inv vote_type hash s w =
        if-both (Every (Inv e)) (not e.has_signer) _ _ (λ q. w)
          λ q.
            Option-both (Every (Inv e)) (find_validator e s.validator_set.validators) _ _ (λ q. w)
              λ i q.
                Option-both (Every (Inv e)) (get_by_index s.validator_set i) _ _ (λ q. w)
                  λ val q. vote_signed-Inv _ _ _ w
