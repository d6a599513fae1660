-- ===== src/Engine/State/Machine/Commits.antt =====
-- The methods of engine/state.go that follow a vote, up to the commit of a block, keep the invariant: a
-- commit that is finalized comes of a precommit set of the height.
use leaderberry.Prelude.{
  ℕ, zero, suc, ◌≡◌, refl, sym, subst, not, ◌&&◌, ◌||◌, Option, none, some, List, [], ◌∷◌, ℤ, pos,
  eqb_ℤ, eqb_ℤ_iff, ltb_ℤ, arith, All, inl, inr, Option-cases,
}
use leaderberry.Types.Hash.{hash_equal, hash_equal_sound}
use leaderberry.Types.Vote.{Vote, Commit}
use leaderberry.Types.Validator.{ValidatorSet}
use leaderberry.Types.Validator.Member.{WellFormed}
use leaderberry.Types.Validator.Rotation.Copies.{with_incremented_priority-WellFormed}
use leaderberry.Types.Commit.{verify_commit}
use leaderberry.PrivVal.FilePv.{block_hash}
use leaderberry.Engine.VoteSet.{
  VoteSet, two_thirds_majority, has_two_thirds_majority, has_two_thirds_any, make_commit,
}
use leaderberry.Engine.HeightVoteSet.{HeightVoteSet, prevotes_of, precommits_of}
use leaderberry.Engine.State.{
  ValidatorUpdate, commit, prevote, prevote_wait, precommit, Env, State, Call, enter_new_round,
  enter_prevote, enter_prevote_wait, enter_precommit, enter_precommit_wait, enter_commit,
  finalize_commit, Outcome, step_is, step_below, prevotes_at,
}
use leaderberry.Engine.State.Counting.{
  has_majority, is_for_block, skip_to_prevote, advance_prevote, prevote_counted,
  handle_prevote_body, skip_to_precommit, advance_precommit, precommit_counted,
  handle_precommit_body,
}
use leaderberry.Engine.State.Committing.{
  commit_in, find_commit, rounds_to, finalize_found, enter_commit_body, block_to_apply,
  next_validators, next_height, begin_height, move_on, applied, finalize_block,
  finalize_commit_body,
}
use leaderberry.Engine.State.Updates.Powers.{IsTypedUpdate, apply_validator_updates-WellFormed}
use leaderberry.Engine.State.Machine.Outcomes.{Every, Every-bind, if-both, Bool-both}
use leaderberry.Engine.State.Machine.Invariant.{
  HasTypedUpdates, Inv, Holds-act, Holds-reset, Holds-verify_commit,
}
use leaderberry.Engine.State.Machine.Proposals.{Keeps, Ready, write_log-Inv}

-- A commit that is found is made of the precommits of some round.
abbrev pub IsMade : HeightVoteSet → Commit → Type 0
IsMade hvs c =
    (round : ℤ) × (vs : VoteSet) × (precommits_of hvs round ≡ some vs) × (make_commit vs ≡ some c)

commit_in-IsMade :
    (hvs : HeightVoteSet) (round : ℤ) (o : Option VoteSet) (c : Commit)
    → precommits_of hvs round ≡ o
    → commit_in o ≡ some c
    → IsMade hvs c
commit_in-IsMade hvs round none c found e = cc
commit_in-IsMade hvs round (some vs) c found e = (round, vs, found, ground (arith, e))

pub find_commit-IsMade :
    (n : ℕ) (hvs : HeightVoteSet) (c : Commit) → find_commit n hvs ≡ some c → IsMade hvs c
unfolding find_commit
find_commit-IsMade zero hvs c e = cc
find_commit-IsMade (suc r) hvs c e = elim (Option-cases (commit_in (precommits_of hvs (pos r)))) [
  | inl q ↦ find_commit-IsMade r hvs c (ground (arith, e, q))
  | inr (d, q) ↦ commit_in-IsMade hvs (pos r) _ c refl (ground (arith, e, q))
]

next_validators-WellFormed :
    (vals next : ValidatorSet) (us : List ValidatorUpdate)
    → WellFormed vals
    → All IsTypedUpdate us
    → next_validators vals us ≡ some next
    → WellFormed next
unfolding next_validators
next_validators-WellFormed vals next [] w h e =
    subst (λ (o : Option ValidatorSet). elim o [ none ↦ Unit {0} | some x ↦ WellFormed x ]) e
      (with_incremented_priority-WellFormed vals (pos 1) w).0
next_validators-WellFormed vals next (u ∷ us) w h e =
    apply_validator_updates-WellFormed vals next (u ∷ us) w h e

module _ {Block World : Type 0} (e : Env Block World) (typed : HasTypedUpdates e)
    (go : Call → State Block World → Outcome (State Block World)) (h : Keeps e go) where
  skip_to_prevote-Inv :
      (vote : Vote) (s : State Block World) → Inv e s → Every (Inv e) (skip_to_prevote go vote s)
  unfolding skip_to_prevote
  skip_to_prevote-Inv vote s w =
      Every-bind (Inv e) (Inv e) _ _ (h (enter_new_round s.height vote.round) s w tt) λ t v.
        Bool-both (Every (Inv e)) (has_majority (prevotes_at s.votes.generation vote.round t)) _ _
          (λ q. h (enter_precommit t.height vote.round) t v tt)
          (λ q. h (enter_prevote t.height vote.round) t v tt)

  advance_prevote-Inv :
      (vs : VoteSet) (s : State Block World) → Inv e s → Every (Inv e) (advance_prevote go vs s)
  unfolding advance_prevote
  advance_prevote-Inv vs s w =
      Bool-both (Every (Inv e)) (has_two_thirds_majority vs) _ _
        (λ q.
          Bool-both (Every (Inv e)) (step_is s.step prevote || step_is s.step prevote_wait) _ _
            (λ q. h (enter_precommit s.height s.round) s w tt) (λ q. w))
        (λ q.
          Bool-both (Every (Inv e)) (has_two_thirds_any vs && step_is s.step prevote) _ _
            (λ q. h (enter_prevote_wait s.height s.round) s w tt) (λ q. w))

  pub handle_prevote-Inv :
      (vote : Vote) (s : State Block World)
      → Inv e s
      → Every (Inv e) (handle_prevote_body go vote s)
  unfolding handle_prevote_body prevote_counted
  handle_prevote-Inv vote s w = counted (prevotes_of s.votes vote.round)
    where
      counted : (o : Option VoteSet) → Every (Inv e) (prevote_counted go vote o s)
      counted none = w
      counted (some vs) =
          Bool-both (Every (Inv e)) (ltb_ℤ s.round vote.round && has_two_thirds_any vs) _ _
            (λ q. skip_to_prevote-Inv vote s w)
            (λ q.
              Bool-both (Every (Inv e)) (eqb_ℤ vote.round s.round) _ _
                (λ q. advance_prevote-Inv vs s w) (λ q. w))

  skip_to_precommit-Inv :
      (vote : Vote) (s : State Block World) → Inv e s → Every (Inv e) (skip_to_precommit go vote s)
  unfolding skip_to_precommit
  skip_to_precommit-Inv vote s w =
      Every-bind (Inv e) (Inv e) _ _ (h (enter_new_round s.height vote.round) s w tt) λ t v.
        Every-bind (Inv e) (Inv e) _ _ (h (enter_prevote t.height vote.round) t v tt)
          λ u x. h (enter_precommit u.height vote.round) u x tt

  advance_precommit-Inv :
      (vote : Vote) (vs : VoteSet) (s : State Block World)
      → Inv e s
      → Every (Inv e) (advance_precommit go vote vs s)
  unfolding advance_precommit
  advance_precommit-Inv vote vs s w =
      Bool-both (Every (Inv e)) (ltb_ℤ s.round vote.round && has_two_thirds_any vs) _ _
        (λ q. skip_to_precommit-Inv vote s w)
        (λ q.
          Bool-both (Every (Inv e))
            (eqb_ℤ vote.round s.round && (has_two_thirds_any vs && step_is s.step precommit)) _ _
            (λ q. h (enter_precommit_wait s.height s.round) s w tt) (λ q. w))

  pub handle_precommit-Inv :
      (vote : Vote) (s : State Block World)
      → Inv e s
      → Every (Inv e) (handle_precommit_body go vote s)
  unfolding handle_precommit_body precommit_counted
  handle_precommit-Inv vote s w = counted (precommits_of s.votes vote.round)
    where
      counted : (o : Option VoteSet) → Every (Inv e) (precommit_counted go vote o s)
      counted none = w
      counted (some vs) =
          Bool-both (Every (Inv e)) (is_for_block (two_thirds_majority vs)) _ _
            (λ q. h (enter_commit s.height) _ w tt) (λ q. advance_precommit-Inv vote vs s w)

  finalize_found-Inv :
      (height : ℤ) (o : Option Commit) (s : State Block World)
      → Inv e s
      → ((c : Commit) → o ≡ some c → Ready e (finalize_commit height c) s)
      → Every (Inv e) (finalize_found e go height o s)
  unfolding finalize_found
  finalize_found-Inv height none s w r = tt
  finalize_found-Inv height (some c) s w r = h (finalize_commit height c) s w (r c refl)

  pub enter_commit-Inv :
      (height : ℤ) (s : State Block World)
      → Inv e s
      → Every (Inv e) (enter_commit_body e go height s)
  unfolding enter_commit_body
  enter_commit-Inv height s w =
      if-both (Every (Inv e)) (not (eqb_ℤ s.height height) || not (step_below s.step commit)) _ _
        (λ q. w)
        (λ q.
          finalize_found-Inv height _ _ w
            λ c f. ready c f (ground (arith, q, eqb_ℤ_iff s.height height)))
    where
      ready :
          (c : Commit)
          → find_commit (rounds_to s.round) s.votes ≡ some c
          → s.height ≡ height
          → Ready e (finalize_commit height c) s
      ready c f same =
          let (round, vs, found, made) = find_commit-IsMade _ s.votes c f in
          (
            sym same,
            rw⁻¹ same (Holds-verify_commit e w round vs c (unfold precommits_of in found) made),
          )

  begin_height-Inv : (s : State Block World) → Inv e s → Every (Inv e) (begin_height e go s)
  unfolding begin_height
  begin_height-Inv s w =
      Bool-both (Every (Inv e)) e.skip_timeout_commit _ _
        (λ q. h (enter_new_round s.height (pos 0)) s w tt) (λ q. Holds-act e w _ tt)

  next_height-Inv :
      (height : ℤ) (c : Commit) (vals : ValidatorSet) (s : State Block World)
      → Inv e s
      → WellFormed vals
      → Inv e (next_height height c vals s)
  unfolding next_height
  next_height-Inv height c vals s w ok = Holds-reset e w _ _ vals ok

  move_on-Inv :
      (height : ℤ) (c : Commit) (o : Option ValidatorSet) (s : State Block World)
      → Inv e s
      → ((vals : ValidatorSet) → o ≡ some vals → WellFormed vals)
      → Every (Inv e) (move_on e go height c o s)
  unfolding move_on
  move_on-Inv height c none s w ok = tt
  move_on-Inv height c (some vals) s w ok =
      Every-bind (Inv e) (Inv e) _ _ (write_log-Inv e _ s w)
        λ t v. begin_height-Inv _ (next_height-Inv height c vals t v (ok vals refl))

  applied-Inv :
      (height : ℤ) (b : Block) (c : Commit) (s : State Block World)
      (r : World × Option (List ValidatorUpdate))
      → Inv e s
      → e.apply_block s.world b c ≡ r
      → verify_commit e.signing.crypto e.chain_id
          (some s.validator_set)
          (block_hash e.signing b)
          height
          (some c)
        ≡ none
      → Every (Inv e) (applied e go height b c s r)
  unfolding applied
  applied-Inv height b c s (world, none) w f v = tt
  applied-Inv height b c s (world, some us) w f v =
      move_on-Inv height c _ _ (Holds-act e w _ (rw⁻¹ w.same_set w.sound.valid_set, v)) λ vals q.
        next_validators-WellFormed s.validator_set vals us (rw⁻¹ w.same_set w.sound.valid_set)
          (typed _ world b c us f) q

  pub finalize_commit-Inv :
      (height : ℤ) (c : Commit) (s : State Block World)
      → Inv e s
      → Ready e (finalize_commit height c) s
      → Every (Inv e) (finalize_commit_body e go height c s)
  unfolding finalize_commit_body finalize_block
  finalize_commit-Inv height c s w (at, ok) = with_block (block_to_apply s)
    where
      valid : WellFormed s.validator_set
      valid = subst WellFormed w.same_set w.sound.valid_set

      with_block : (o : Option Block) → Every (Inv e) (finalize_block e go height c o s)
      with_block none = tt
      with_block (some b) =
          if-both (Every (Inv e)) (not (hash_equal (block_hash e.signing b) c.block_hash)) _ _
            (λ q. tt)
            λ q.
              if-both (Every (Inv e)) e.has_executor _ _
                (λ x. applied-Inv height b c s _ w refl (
                  rw (hash_equal_sound (block_hash e.signing b) c.block_hash (ground (arith, q)))
                    ok))
                (λ x.
                  move_on-Inv height c _ s w
                    (λ vals f. next_validators-WellFormed s.validator_set vals [] valid tt f))
