-- ===== src/Engine/State/Machine/Proposals.antt =====
-- The methods of engine/state.go about rounds and proposals keep the invariant, if the calls they make do.
use leaderberry.Prelude.{
  ◌≡◌, refl, true, false, not, ◌||◌, Option, none, some, ℤ, ltb_ℤ, eqb_ℤ, Bool,
}
use leaderberry.Types.Validator.{NamedValidator}
use leaderberry.Types.Validator.Rotation.{get_proposer_for_round}
use leaderberry.Types.Commit.{verify_commit}
use leaderberry.PrivVal.FilePv.{Proposal, Answer, signed, refused}
use leaderberry.PrivVal.FilePv
use leaderberry.Engine.State.{
  LogEntry, Env, State, Call, finalize_commit, enter_new_round, enter_prevote, enter_prevote_wait,
  enter_precommit, enter_precommit_wait, create_proposal, enter_commit, sign_and_send,
  handle_prevote, handle_precommit, Outcome, writes,
}
use leaderberry.Engine.State.Proposing.{
  written, write_log, start_round, is_proposer, enter_new_round_body, choose_block, send_proposal,
  proposal_signed, sign_and_propose, propose_block, create_proposal_body,
}
use leaderberry.Engine.State.Machine.Outcomes.{Every, Every-bind, if-both, Bool-both, Option-both}
use leaderberry.Engine.State.Machine.Invariant.{Inv, Holds-act, Holds-propose}

module _ {Block World : Type 0} (e : Env Block World) where
  -- What a call is made with: a commit to finalize is one that VerifyCommit accepts.
  abbrev pub Ready : Call → State Block World → Type 0
  Ready (finalize_commit height c) s =
      (height ≡ s.height)
      × (verify_commit e.signing.crypto e.chain_id (some s.validator_set) c.block_hash height
            (some c)
          ≡ none)
  Ready (enter_new_round height round) s = Unit {0}
  Ready (enter_prevote height round) s = Unit {0}
  Ready (enter_prevote_wait height round) s = Unit {0}
  Ready (enter_precommit height round) s = Unit {0}
  Ready (enter_precommit_wait height round) s = Unit {0}
  Ready create_proposal s = Unit {0}
  Ready (enter_commit height) s = Unit {0}
  Ready (sign_and_send vote_type hash) s = Unit {0}
  Ready (handle_prevote vote) s = Unit {0}
  Ready (handle_precommit vote) s = Unit {0}

  abbrev pub Keeps : (Call → State Block World → Outcome (State Block World)) → Type 0
  Keeps go =
      (call : Call) (s : State Block World) → Inv e s → Ready call s → Every (Inv e) (go call s)

  written-Inv :
      (entry : LogEntry Block) (s : State Block World) (r : World × Bool)
      → Inv e s
      → Every (Inv e) (written e entry s r)
  unfolding written
  written-Inv entry s (world, true) w = Holds-act e w (writes entry) tt
  written-Inv entry s (world, false) w = tt

  pub write_log-Inv :
      (entry : LogEntry Block) (s : State Block World)
      → Inv e s
      → Every (Inv e) (write_log e entry s)
  unfolding write_log
  write_log-Inv entry s w =
      if-both (Every (Inv e)) (not e.has_wal) _ _ (λ q. w)
        (λ q. written-Inv entry s (e.write s.world entry) w)

  module _ (go : Call → State Block World → Outcome (State Block World)) (h : Keeps go) where
    start_round-Inv :
        (height round : ℤ) (s : State Block World) → Inv e s → Inv e (start_round e height round s)
    unfolding start_round
    start_round-Inv height round s w = Holds-act e (Holds-propose e w none none tt) _ tt

    pub enter_new_round-Inv :
        (height round : ℤ) (s : State Block World)
        → Inv e s
        → Every (Inv e) (enter_new_round_body e go height round s)
    unfolding enter_new_round_body
    enter_new_round-Inv height round s w =
        if-both (Every (Inv e)) (not (eqb_ℤ s.height height) || ltb_ℤ round s.round) _ _ (λ q. w)
          λ q.
            Bool-both (Every (Inv e)) (is_proposer e (get_proposer_for_round s.validator_set round))
              _ _ (λ p. h create_proposal _ (start_round-Inv height round s w) tt)
              (λ p. start_round-Inv height round s w)

    send_proposal-Inv :
        (p : Proposal Block) (s : State Block World)
        → Inv e s
        → Every (Inv e) (send_proposal e go p s)
    unfolding send_proposal
    send_proposal-Inv p s w = Every-bind (Inv e) (Inv e) _ _ (write_log-Inv _ s w) λ t v.
        h (enter_prevote t.height t.round) _
          (Holds-act e (Holds-propose e v (some p) (some p.block) refl) _ tt) tt

    proposal_signed-Inv :
        (p : Proposal Block) (s : State Block World) (r : World × Answer)
        → Inv e s
        → Every (Inv e) (proposal_signed e go p s r)
    unfolding proposal_signed
    proposal_signed-Inv p s (world, signed sig) w = send_proposal-Inv _ _ w
    proposal_signed-Inv p s (world, refused x) w = w
    proposal_signed-Inv p s (world, FilePv.panicked) w = tt

    sign_and_propose-Inv :
        (p : NamedValidator) (b : Block) (s : State Block World)
        → Inv e s
        → Every (Inv e) (sign_and_propose e go p b s)
    unfolding sign_and_propose
    sign_and_propose-Inv p b s w = proposal_signed-Inv _ _ _ w

    choose_block-Inv :
        (p : NamedValidator) (s : State Block World) → Inv e s → Inv e (choose_block e p s).0
    unfolding choose_block
    choose_block-Inv p s w =
        let good = λ (r : State Block World × Option Block). Inv e r.0 in
        Option-both good s.valid_block _ _
          (λ q.
            Option-both good s.locked_block _ _
              (λ q. if-both good (not e.has_executor) _ _ (λ q. w) (λ q. w)) (λ b q. w))
          (λ b q. w)

    propose_block-Inv :
        (p : NamedValidator) (r : State Block World × Option Block)
        → Inv e r.0
        → Every (Inv e) (propose_block e go p r)
    unfolding propose_block
    propose_block-Inv p (s, none) w = w
    propose_block-Inv p (s, some b) w = sign_and_propose-Inv p b s w

    pub create_proposal-Inv :
        (s : State Block World) → Inv e s → Every (Inv e) (create_proposal_body e go s)
    unfolding create_proposal_body
    create_proposal-Inv s w =
        Option-both (Every (Inv e)) (get_proposer_for_round s.validator_set s.round) _ _ (λ q. w)
          (λ p q. propose_block-Inv p _ (choose_block-Inv p s w))
